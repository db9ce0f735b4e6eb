-- ===== src/Gpu/Enabled.antt =====
-- What enabling peer access does to a matrix.
use mathlib.Core.Option.{none-ne-some}
use vugva.Common.{
  ℕ, zero, suc, ◌==◌, ◌≡◌, ◌≢◌, refl, sym, ap, ◌∙◌, subst, ◌⊎◌, inl, inr, Bool, true, false, none,
  some, List, [], ◌∷◌, get_elem?, set, Bool-cases, Option-cases, ==→eq, not-==→ne,
}
use vugva.Gpu.Peer.{PeerMatrix, cell, set_cell, can_access, is_enabled}

module _ {ℓ} {A : Type ℓ} where
  get_elem?-set_ne :
      (xs : List A) (i j : ℕ) (v : A) → i ≢ j → get_elem? (set xs i v) j ≡ get_elem? xs j
  get_elem?-set_ne [] i j v h = refl
  get_elem?-set_ne (x ∷ xs) zero zero v h = absurd (h refl)
  get_elem?-set_ne (x ∷ xs) zero (suc j) v h = refl
  get_elem?-set_ne (x ∷ xs) (suc i) zero v h = refl
  get_elem?-set_ne (x ∷ xs) (suc i) (suc j) v h = get_elem?-set_ne xs i j v (λ e. h (ap suc e))

  get_elem?-set_self :
      (xs : List A) (i : ℕ) (x v : A) → get_elem? xs i ≡ some x → get_elem? (set xs i v) i ≡ some v
  get_elem?-set_self [] i x v h = absurd (none-ne-some x h)
  get_elem?-set_self (y ∷ xs) zero x v h = refl
  get_elem?-set_self (y ∷ xs) (suc i) x v h = get_elem?-set_self xs i x v h

-- A cell other than the one set, and the one set.
set_cell-ne :
    (rows : List (List Bool)) (i j a b : ℕ)
    → (i ≢ a) ⊎ (j ≢ b)
    → cell (set_cell rows i j) a b ≡ cell rows a b
set_cell-ne rows i j a b differ = from (Option-cases (get_elem? rows i))
  where
    inside :
        (row : List Bool)
        → get_elem? rows i ≡ some row
        → (i ≢ a) ⊎ (j ≢ b)
        → cell (set rows i (set row j true)) a b ≡ cell rows a b
    inside row here (inl h) = rw (cell, get_elem?-set_ne rows i a (set row j true) h) refl
    inside row here (inr h) = elim (Bool-cases (i == a)) [
      | inl same ↦
          subst (λ x. cell (set rows i (set row j true)) x b ≡ cell rows x b) (==→eq i a same)
            (rw (cell, get_elem?-set_self rows i row (set row j true) here, here)
              (get_elem?-set_ne row j b true h))
      | inr other ↦ rw (cell, get_elem?-set_ne rows i a (set row j true) (not-==→ne i a other)) refl
    ]

    from :
        (get_elem? rows i ≡ none) ⊎ ((row : List Bool) × (get_elem? rows i ≡ some row))
        → cell (set_cell rows i j) a b ≡ cell rows a b
    from (inl h) = rw (set_cell, h) refl
    from (inr (row, h)) = rw (set_cell, h) (inside row h differ)

-- Peer access of a pair is enabled only if the devices can have it and are two.
abbrev pub Sound : PeerMatrix → Type 0
Sound m = (i j : ℕ) → is_enabled m i j ≡ true → (can_access m i j ≡ true) × (i ≢ j)

set_cell_self :
    (rows : List (List Bool)) (i j : ℕ) (b : Bool)
    → cell rows i j ≡ some b
    → cell (set_cell rows i j) i j ≡ some true
set_cell_self rows i j b here = from (Option-cases (get_elem? rows i)) here
  where
    from :
        (get_elem? rows i ≡ none) ⊎ ((row : List Bool) × (get_elem? rows i ≡ some row))
        → cell rows i j ≡ some b
        → cell (set_cell rows i j) i j ≡ some true
    from (inl h) at = absurd (none-ne-some b (rw (cell, h) at at))
    from (inr (row, h)) at =
        rw (set_cell, h, cell, get_elem?-set_self rows i row (set row j true) h)
          (get_elem?-set_self row j b true (rw (cell, h) at at))

-- From a matrix to one that has the same access, keeps what was enabled, and is sound if the first is.
pub record Grown (m n : PeerMatrix) : Type 0 where
  pub same_access : n.can_access ≡ m.can_access
  pub keeps : (i j : ℕ) → is_enabled m i j ≡ true → is_enabled n i j ≡ true
  pub stays : Sound m → Sound n

pub Grown-refl : (m : PeerMatrix) → Grown m m
Grown-refl m = record { same_access = refl; keeps = λ i j h. h; stays = λ h. h }

pub Grown-trans : (m n o : PeerMatrix) → Grown m n → Grown n o → Grown m o
Grown-trans m n o g h = record {
  same_access = h.same_access ∙ g.same_access;
  keeps = λ i j e. h.keeps i j (g.keeps i j e);
  stays = λ e. h.stays (g.stays e);
}

-- The cell set, or another.
pair-cases : (i j a b : ℕ) → ((i ≡ a) × (j ≡ b)) ⊎ ((i ≢ a) ⊎ (j ≢ b))
pair-cases i j a b = elim (Bool-cases (i == a)) [
  | inr h ↦ inr (inl (not-==→ne i a h))
  | inl h ↦ elim (Bool-cases (j == b)) [
    | inr k ↦ inr (inr (not-==→ne j b k))
    | inl k ↦ inl (==→eq i a h, ==→eq j b k)
  ]
]

-- One cell more, of a pair that can have access.
pub set_cell-Grown :
    (m : PeerMatrix) (i j : ℕ)
    → cell m.can_access i j ≡ some true
    → i ≢ j
    → cell m.enabled i j ≡ some false
    → Grown m (record m { enabled = set_cell m.enabled i j })
unfolding is_enabled can_access
set_cell-Grown m i j can differ off = record {
  same_access = refl;
  keeps = λ a b h. kept a b h (pair-cases i j a b);
  stays = λ sound a b h. stay sound a b h (pair-cases i j a b);
}
  where
    kept :
        (a b : ℕ)
        → is_enabled m a b ≡ true
        → ((i ≡ a) × (j ≡ b)) ⊎ ((i ≢ a) ⊎ (j ≢ b))
        → is_enabled (record m { enabled = set_cell m.enabled i j }) a b ≡ true
    kept a b h (inl (e, f)) = rw (sym e, sym f, set_cell_self m.enabled i j false off) refl
    kept a b h (inr k) = rw (set_cell-ne m.enabled i j a b k) h

    stay :
        Sound m
        → (a b : ℕ) → is_enabled (record m { enabled = set_cell m.enabled i j }) a b ≡ true
        → ((i ≡ a) × (j ≡ b)) ⊎ ((i ≢ a) ⊎ (j ≢ b))
        → (can_access m a b ≡ true) × (a ≢ b)
    stay sound a b h (inl (e, f)) = (rw (sym e, sym f, can) refl, λ g. differ (e ∙ g ∙ sym f))
    stay sound a b h (inr k) = sound a b (rw (set_cell-ne m.enabled i j a b k) at h)
