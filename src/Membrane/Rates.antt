-- ===== src/Membrane/Rates.antt =====
-- What a sweep does to the rates.
use Prim.Native.String.{String}
use text.Mathlib.Text.{◌==◌ as str_eq}
use text.Mathlib.TextEquality.{eq_iff}
use vugva.Common.{
  ℕ, ◌≡◌, refl, sym, ap, ◌∙◌, true, false, ◌⊎◌, inl, inr, Option, none, some, List, [], ◌∷◌,
  if◌then◌else◌, add_word, Bool-cases,
}
use vugva.Membrane.{
  Float, Membrane, entry, observe, insert_new, or_else, rate_decay, weighted, decay_known, add_seen,
  decay,
}

abbrev or_some : {A : Type 0} → Option A → Option A → Option A
or_some none o = o
or_some (some a) o = some a

or_some-none : {A : Type 0} (o : Option A) → or_some o none ≡ o
or_some-none none = refl
or_some-none (some a) = refl

or_some_assoc : {A : Type 0} (o p q : Option A) → or_some (or_some o p) q ≡ or_some o (or_some p q)
or_some_assoc none p q = refl
or_some_assoc (some a) p q = refl

entry-insert_new :
    {F : Type 0} (i k : String) (r : F) (m : List (String × F))
    → entry i (insert_new k r m) ≡ or_some (entry i m) (if str_eq k i then some r else none)
unfolding entry insert_new
entry-insert_new i k r [] = refl
entry-insert_new i k r ((j, q) ∷ m) = elim (Bool-cases (str_eq j k)) [
  | inl e ↦ elim (Bool-cases (str_eq j i)) [
    | inl f ↦ rw (e, f) refl
    | inr f ↦
        rw (e, f, ap (λ x. str_eq x i) (sym ((eq_iff j k).0 e)) ∙ f)
          (sym (or_some-none (entry i m)))
  ]
  | inr e ↦ elim (Bool-cases (str_eq j i)) [
    | inl f ↦ rw (e, f) refl
    | inr f ↦ rw (e, f) (entry-insert_new i k r m)
  ]
]

-- The next count of an access, and the count of another name.
pub entry-observe :
    (i k : String) (m : List (String × ℕ))
    → entry i (observe k m)
      ≡ (if str_eq k i then some (add_word (or_else (entry i m) 0) 1) else entry i m)
unfolding entry observe
entry-observe i k [] = refl
entry-observe i k ((j, n) ∷ m) = elim (Bool-cases (str_eq j k)) [
  | inl e ↦ elim (Bool-cases (str_eq j i)) [
    | inl f ↦ rw (e, f, same_test e ∙ f) refl
    | inr f ↦ rw (e, f, same_test e ∙ f) refl
  ]
  | inr e ↦ elim (Bool-cases (str_eq j i)) [
    | inl f ↦ rw (e, f, other_test e f) refl
    | inr f ↦ rw (e, f) (entry-observe i k m)
  ]
]
  where
    same_test : str_eq j k ≡ true → str_eq k i ≡ str_eq j i
    same_test e = ap (λ x. str_eq x i) (sym ((eq_iff j k).0 e))

    other_test : str_eq j k ≡ false → str_eq j i ≡ true → str_eq k i ≡ false
    other_test e f = elim (Bool-cases (str_eq k i)) [
      | inl g ↦ cc (sym e ∙ (eq_iff j k).1 ((eq_iff j i).0 f ∙ sym ((eq_iff k i).0 g)))
      | inr g ↦ g
    ]

module _ {F : Type 0} (float : Float F) where
  -- The rate after a window: of a page that had one, and of a page that was seen first in it.
  abbrev pub folded : Option F → Option ℕ → Option F
  folded none none = none
  folded none (some h) = some (weighted float h)
  folded (some r) h =
      some (float.add (float.mul r (rate_decay float)) (weighted float (or_else h 0)))

  abbrev first_rate : Option ℕ → Option F
  first_rate none = none
  first_rate (some h) = some (weighted float h)

  entry-add_seen :
      (i : String) (hits : List (String × ℕ)) (rates : List (String × F))
      → entry i (add_seen float hits rates) ≡ or_some (entry i rates) (first_rate (entry i hits))
  unfolding add_seen entry
  entry-add_seen i [] rates = sym (or_some-none (entry i rates))
  entry-add_seen i ((k, h) ∷ hits) rates =
      entry-add_seen i hits (insert_new k (weighted float h) rates)
      ∙ ap (λ o. or_some o (first_rate (entry i hits)))
          (entry-insert_new i k (weighted float h) rates)
      ∙ or_some_assoc (entry i rates) _ _
      ∙ ap (or_some (entry i rates)) (first (Bool-cases (str_eq k i)))
    where
      first :
          (str_eq k i ≡ true) ⊎ (str_eq k i ≡ false)
          → or_some
              (if str_eq k i then some (weighted float h) else none)
              (first_rate (entry i hits))
            ≡ first_rate (if str_eq k i then some h else entry i hits)
      first (inl e) = rw e refl
      first (inr e) = rw e refl

  abbrev kept_rate : Option F → Option ℕ → Option F
  kept_rate none h = none
  kept_rate (some r) h =
      some (float.add (float.mul r (rate_decay float)) (weighted float (or_else h 0)))

  entry-decay_known :
      (i : String) (hits : List (String × ℕ)) (rates : List (String × F))
      → entry i (decay_known float hits rates) ≡ kept_rate (entry i rates) (entry i hits)
  unfolding decay_known entry
  entry-decay_known i hits [] = refl
  entry-decay_known i hits ((j, r) ∷ rates) = elim (Bool-cases (str_eq j i)) [
    | inl e ↦ rw (e, (eq_iff j i).0 e) refl
    | inr e ↦ rw e (entry-decay_known i hits rates)
  ]

  folded-parts : (r : Option F) (h : Option ℕ) → or_some (kept_rate r h) (first_rate h) ≡ folded r h
  folded-parts none none = refl
  folded-parts none (some h) = refl
  folded-parts (some r) h = refl

  entry-decay :
      (i : String) (m : Membrane F)
      → entry i (decay float m).rates ≡ folded (entry i m.rates) (entry i m.hits)
  unfolding decay
  entry-decay i m =
      entry-add_seen i m.hits (decay_known float m.hits m.rates)
      ∙ ap (λ o. or_some o (first_rate (entry i m.hits))) (entry-decay_known i m.hits m.rates)
      ∙ folded-parts (entry i m.rates) (entry i m.hits)

  -- After an access to a page and the end of the window, the rate of every page is its decayed rate and what the
  -- window's accesses add, the last one counted for the page accessed only, and a new window starts.
  pub decay-observe :
      (m : Membrane F) (accessed name : String)
      → let m' = decay float (record m { hits = observe accessed m.hits }) in
        (entry name m'.rates
          ≡ folded (entry name m.rates) (
              if str_eq accessed name
              then some (add_word (or_else (entry name m.hits) 0) 1)
              else entry name m.hits))
        × (m'.hits ≡ [])
  unfolding decay
  decay-observe m accessed name = (
    entry-decay name (record m { hits = observe accessed m.hits })
        ∙ ap (folded (entry name m.rates)) (entry-observe name accessed m.hits),
    refl,
  )
