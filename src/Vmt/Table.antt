-- ===== src/Vmt/Table.antt =====
-- The table's operations against a map from names to pages.
use Prim.Native.String.{String}
use text.Mathlib.Text.{◌==◌ as str_eq}
use text.Mathlib.TextPositions.{eq_refl}
use text.Mathlib.TextEquality.{eq_iff}
use vugva.Common.{
  ℕ, suc, ◌≡◌, ◌≢◌, refl, sym, ap, ◌∙◌, subst, inl, inr, false, Option, none, some, List, [], ◌∷◌,
  length, Bool-cases, Option-cases,
}
use vugva.Vmt.{
  Page, VirtualMemoryTable, get, put, drop, lookup, update, remove, len, allocated_page, allocate,
}

pub ne→not-str_eq : (j k : String) → j ≢ k → str_eq j k ≡ false
ne→not-str_eq j k ne = elim (Bool-cases (str_eq j k)) [
  | inl e ↦ absurd (ne ((eq_iff j k).0 e))
  | inr e ↦ e
]

pub not-str_eq→ne : (j k : String) → str_eq j k ≡ false → k ≢ j
not-str_eq→ne j k e eq = cc (sym e ∙ ap (λ i. str_eq i k) (sym eq) ∙ eq_refl k)

pub get-put_self : (k : String) (p : Page) (m : List (String × Page)) → get k (put k p m) ≡ some p
unfolding get put
get-put_self k p [] = rw (eq_refl k) refl
get-put_self k p ((j, q) ∷ m) = elim (Bool-cases (str_eq j k)) [
  | inl e ↦ rw (e, eq_refl k) refl
  | inr e ↦ rw (e, e) (get-put_self k p m)
]

pub get-put_ne :
    (k i : String) (p : Page) (m : List (String × Page)) → k ≢ i → get i (put k p m) ≡ get i m
unfolding get put
get-put_ne k i p [] ne = rw (ne→not-str_eq k i ne) refl
get-put_ne k i p ((j, q) ∷ m) ne = elim (Bool-cases (str_eq j k)) [
  | inl e ↦
      let j≢i : j ≢ i = λ eq. ne (sym ((eq_iff j k).0 e) ∙ eq) in
      rw (e, ne→not-str_eq k i ne, ne→not-str_eq j i j≢i) refl
  | inr e ↦ elim (Bool-cases (str_eq j i)) [
    | inl f ↦ rw (e, f) refl
    | inr f ↦ rw (e, f) (get-put_ne k i p m ne)
  ]
]

pub get-drop_ne : (k i : String) (m : List (String × Page)) → k ≢ i → get i (drop k m) ≡ get i m
unfolding get drop
get-drop_ne k i [] ne = refl
get-drop_ne k i ((j, q) ∷ m) ne = elim (Bool-cases (str_eq j k)) [
  | inl e ↦
      let j≢i : j ≢ i = λ eq. ne (sym ((eq_iff j k).0 e) ∙ eq) in rw (e, ne→not-str_eq j i j≢i) refl
  | inr e ↦ elim (Bool-cases (str_eq j i)) [
    | inl f ↦ rw (e, f) refl
    | inr f ↦ rw (e, f) (get-drop_ne k i m ne)
  ]
]

-- Each name once.
abbrev pub Keyed : List (String × Page) → Type 0
Keyed [] = Unit {0}
Keyed ((j, q) ∷ m) = (get j m ≡ none) × Keyed m

pub put-Keyed : (k : String) (p : Page) (m : List (String × Page)) → Keyed m → Keyed (put k p m)
unfolding get put
put-Keyed k p [] v = (refl, tt)
put-Keyed k p ((j, q) ∷ m) (fresh, v) = elim (Bool-cases (str_eq j k)) [
  | inl e ↦ rw e (subst (λ i. get i m ≡ none) ((eq_iff j k).0 e) fresh, v)
  | inr e ↦
      let k≢j : k ≢ j = not-str_eq→ne j k e in
      rw e (get-put_ne k j p m k≢j ∙ fresh, put-Keyed k p m v)
]

pub drop-Keyed : (k : String) (m : List (String × Page)) → Keyed m → Keyed (drop k m)
unfolding get drop
drop-Keyed k [] v = tt
drop-Keyed k ((j, q) ∷ m) (fresh, v) = elim (Bool-cases (str_eq j k)) [
  | inl e ↦ rw e v
  | inr e ↦
      let k≢j : k ≢ j = not-str_eq→ne j k e in
      rw e (get-drop_ne k j m k≢j ∙ fresh, drop-Keyed k m v)
]

pub get-drop_self : (k : String) (m : List (String × Page)) → Keyed m → get k (drop k m) ≡ none
unfolding get drop
get-drop_self k [] v = refl
get-drop_self k ((j, q) ∷ m) (fresh, v) = elim (Bool-cases (str_eq j k)) [
  | inl e ↦ rw e (subst (λ i. get i m ≡ none) ((eq_iff j k).0 e) fresh)
  | inr e ↦ rw (e, e) (get-drop_self k m v)
]

-- One page more, unless the name was in use.
abbrev pub grown : Option Page → ℕ → ℕ
grown none n = suc n
grown (some _) n = n

grown-suc : (o : Option Page) (n : ℕ) → suc (grown o n) ≡ grown o (suc n)
grown-suc none n = refl
grown-suc (some p) n = refl

length-put :
    (k : String) (p : Page) (m : List (String × Page))
    → length (put k p m) ≡ grown (get k m) (length m)
unfolding get put
length-put k p [] = refl
length-put k p ((j, q) ∷ m) = elim (Bool-cases (str_eq j k)) [
  | inl e ↦ rw e refl
  | inr e ↦ rw e (ap suc (length-put k p m) ∙ grown-suc (get k m) (length m))
]

-- One page more, if there was one.
abbrev refilled : Option Page → ℕ → ℕ
refilled none n = n
refilled (some _) n = suc n

refilled-suc : (o : Option Page) (n : ℕ) → suc (refilled o n) ≡ refilled o (suc n)
refilled-suc none n = refl
refilled-suc (some p) n = refl

length-drop :
    (k : String) (m : List (String × Page)) → length m ≡ refilled (get k m) (length (drop k m))
unfolding get drop
length-drop k [] = refl
length-drop k ((j, q) ∷ m) = elim (Bool-cases (str_eq j k)) [
  | inl e ↦ rw e refl
  | inr e ↦ rw e (ap suc (length-drop k m) ∙ refilled-suc (get k m) (length (drop k m)))
]

-- An allocation answers its name and registers a blank page under it, in place of any page that had
-- the name; every other page stays, and names stay unique.
pub allocate-registers :
    (t : VirtualMemoryTable) (name : String) (shape : List ℕ) (element_size : ℕ)
    → Keyed t.pages
    → let (key, t') = allocate t name shape element_size in
      (name ≢ "" → key ≡ name)
      × (lookup t' key ≡ some (allocated_page key shape element_size))
      × ((i : String) → key ≢ i → lookup t' i ≡ lookup t i)
      × (len t' ≡ grown (lookup t key) (len t))
      × Keyed t'.pages
unfolding allocate lookup len
allocate-registers t name shape element_size v =
    let key : String = (allocate t name shape element_size).0 in
    let page : Page = allocated_page key shape element_size in
    (
      λ ne. rw (ne→not-str_eq name "" ne) refl,
      get-put_self key page t.pages,
      λ i ne. get-put_ne key i page t.pages ne,
      length-put key page t.pages,
      put-Keyed key page t.pages v,
    )

-- A removal answers the page and takes it, and only it, out of the table.
remove-takes :
    (t : VirtualMemoryTable) (name : String)
    → Keyed t.pages
    → let (page, t') = remove t name in
      (page ≡ lookup t name)
      × (lookup t' name ≡ none)
      × ((i : String) → name ≢ i → lookup t' i ≡ lookup t i)
      × (len t ≡ refilled page (len t'))
      × Keyed t'.pages
unfolding remove lookup len
remove-takes t name v = (
  refl,
  get-drop_self name t.pages v,
  λ i ne. get-drop_ne name i t.pages ne,
  length-drop name t.pages,
  drop-Keyed name t.pages v,
)

update_absent :
    (t : VirtualMemoryTable) (name : String) (f : Page → Page)
    → get name t.pages ≡ none
    → update t name f ≡ t
unfolding update
update_absent t name f e = rw (e, update) refl

pub update_present :
    (t : VirtualMemoryTable) (name : String) (f : Page → Page) (p : Page)
    → get name t.pages ≡ some p
    → update t name f ≡ record t { pages = put name (f p) t.pages }
unfolding update
update_present t name f p e = rw (e, update) refl

-- What a caller writes through `lookup_mut` changes that page only; without the page nothing changes.
pub update-writes :
    (t : VirtualMemoryTable) (name : String) (f : Page → Page)
    → Keyed t.pages
    → let t' = update t name f in
      (lookup t name ≡ none → t' ≡ t)
      × ((p : Page) → lookup t name ≡ some p → lookup t' name ≡ some (f p))
      × ((i : String) → name ≢ i → lookup t' i ≡ lookup t i)
      × (len t' ≡ len t)
      × Keyed t'.pages
unfolding lookup len
update-writes t name f v = elim (Option-cases (get name t.pages)) [
  | inl e ↦ rw (update_absent t name f e, e) (λ _. refl, λ p h. cc h, λ i _. refl, refl, v)
  | inr (p, e) ↦
      rw (update_present t name f p e, e)
        (
          λ h. cc h,
          λ q h. get-put_self name (f p) t.pages ∙ cc h,
          λ i ne. get-put_ne name i (f p) t.pages ne,
          length-put name (f p) t.pages ∙ rw e refl,
          put-Keyed name (f p) t.pages v,
        )
]
