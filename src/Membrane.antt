-- ===== src/Membrane.antt =====
-- src/membrane.rs: decayed access rates, the score of a page, and the plan of what to keep in VRAM.
pub mod Plan
pub mod Rates
pub mod Decimals
mod Tests
use Prim.Native.String.{String, compare}
use Prim.Native.Nat.{Ordering}
use text.Mathlib.Text.{◌==◌ as str_eq}
use vugva.Common.{
  ℕ, zero, suc, ◌+◌, ◌*◌, ◌^◌, Bool, true, false, ◌||◌, Option, none, some, List, [], ◌∷◌, ◌++◌,
  if◌then◌else◌, leb, add_word,
}

-- What the code uses of `f64`. `literal n k` is the literal `n / 10 ^ k`, `partial_cmp` answers nothing on
-- a NaN, and `to_usize` is `as usize`.
pub record Float (F : Type 0) : Type 0 where
  pub infinity : F
  pub literal : ℕ → ℕ → F
  pub of_nat : ℕ → F
  pub to_usize : F → ℕ
  pub add : F → F → F
  pub sub : F → F → F
  pub mul : F → F → F
  pub div : F → F → F
  pub partial_cmp : F → F → Option Ordering

pub record PageObs (F : Type 0) : Type 0 where
  pub rate : F
  pub bytes : ℕ
  pub resident : Bool
  pub pinned : Bool

pub record TierPolicy (F : Type 0) : Type 0 where
  pub alpha : F
  pub beta : F

pub record Membrane (F : Type 0) : Type 0 where
  pub rates : List (String × F)
  pub hits : List (String × ℕ)
  pub sweeps : ℕ

-- The entry of a name, and a map without it.
unfoldable pub entry : {A : Type 0} → String → List (String × A) → Option A
entry name [] = none
entry name ((k, a) ∷ m) = if str_eq k name then some a else entry name m

unfoldable pub without : {A : Type 0} → String → List (String × A) → List (String × A)
without name [] = []
without name ((k, a) ∷ m) = if str_eq k name then m else (k, a) ∷ without name m

-- `*self.hits.entry(name).or_insert(0) += 1`
unfoldable pub observe : String → List (String × ℕ) → List (String × ℕ)
observe name [] = (name, 1) ∷ []
observe name ((k, n) ∷ m) = if str_eq k name then (k, add_word n 1) ∷ m else (k, n) ∷ observe name m

module _ {F : Type 0} where
  unfoldable pub new : Membrane F
  new = record { rates = []; hits = []; sweeps = 0 }

  unfoldable pub forget : String → Membrane F → Membrane F
  unfolding without
  forget name m = record m { rates = without name m.rates; hits = without name m.hits }

  -- `entry(name).or_insert(rate)`
  unfoldable pub insert_new : String → F → List (String × F) → List (String × F)
  insert_new name rate [] = (name, rate) ∷ []
  insert_new name rate ((k, r) ∷ m) =
      if str_eq k name then (k, r) ∷ m else (k, r) ∷ insert_new name rate m

abbrev pub or_else {ℓ} : {A : Type ℓ} → Option A → A → A
or_else none d = d
or_else (some a) d = a

module _ {F : Type 0} (float : Float F) where
  unfoldable pub default_policy : TierPolicy F
  default_policy = record { alpha = float.literal 10 1; beta = float.literal 5 2 }

  abbrev pub rate_decay : F
  rate_decay = float.literal 75 2

  unfoldable pub score : TierPolicy F → PageObs F → F
  score p obs =
      if obs.pinned
      then float.infinity
      else (let mib =
            float.div (float.of_nat obs.bytes)
              (float.mul (float.literal 10240 1) (float.literal 10240 1)) in
          let bonus = if obs.resident then float.literal 15 1 else float.literal 10 1 in
          float.sub (float.mul (float.mul p.alpha obs.rate) bonus) (float.mul p.beta mib))

  -- What a window adds to a rate.
  abbrev pub weighted : ℕ → F
  weighted h = float.mul (float.of_nat h) (float.sub (float.literal 10 1) rate_decay)

  unfoldable pub decay_known : List (String × ℕ) → List (String × F) → List (String × F)
  unfolding entry
  decay_known hits [] = []
  decay_known hits ((name, rate) ∷ m) =
      (name, float.add (float.mul rate rate_decay) (weighted (or_else (entry name hits) 0)))
      ∷ decay_known hits m

  unfoldable pub add_seen : List (String × ℕ) → List (String × F) → List (String × F)
  unfolding insert_new
  add_seen [] rates = rates
  add_seen ((name, h) ∷ hits) rates = add_seen hits (insert_new name (weighted h) rates)

  unfoldable pub decay : Membrane F → Membrane F
  unfolding decay_known add_seen
  decay m = record {
    rates = add_seen m.hits (decay_known m.hits m.rates);
    hits = [];
    sweeps = add_word m.sweeps 1;
  }

  unfoldable pub rate : Membrane F → String → F
  unfolding entry
  rate m name = or_else (entry name m.rates) (float.literal 0 1)

  -- A candidate with its score.
  abbrev pub Ranked : Type 0
  Ranked = F × (String × PageObs F)

  unfoldable pub ranked : TierPolicy F → List (String × PageObs F) → List Ranked
  unfolding score
  ranked p [] = []
  ranked p ((name, obs) ∷ candidates) = (score p obs, (name, obs)) ∷ ranked p candidates

  -- The comparison of `sort_by`: by score, the higher first, then by name. `at_most a b` is that `a` does not
  -- come after `b`.
  abbrev is_not_gt : Ordering → Bool
  is_not_gt Ordering.lt = true
  is_not_gt Ordering.eq = true
  is_not_gt Ordering.gt = false

  abbrev then_with : Ordering → Ordering → Ordering
  then_with Ordering.lt o = Ordering.lt
  then_with Ordering.eq o = o
  then_with Ordering.gt o = Ordering.gt

  unfoldable pub at_most : Ranked → Ranked → Bool
  at_most (s, (n, o)) (t, (m, q)) =
      is_not_gt (then_with (or_else (float.partial_cmp t s) Ordering.eq) (compare n m))

  -- `sort_by` is a stable sort: each candidate goes before the later ones that it does not come after.
  unfoldable pub insert_ranked : Ranked → List Ranked → List Ranked
  unfolding at_most
  insert_ranked r [] = r ∷ []
  insert_ranked r (s ∷ ss) =
      let rest = insert_ranked r ss in if at_most r s then r ∷ s ∷ ss else s ∷ rest

  unfoldable pub sort_ranked : List Ranked → List Ranked
  unfolding insert_ranked
  sort_ranked [] = []
  sort_ranked (r ∷ rs) = insert_ranked r (sort_ranked rs)

  -- The loop, with the bytes used so far: the names to keep and the names to evict, in order.
  unfoldable pub fill : ℕ → ℕ → List Ranked → List String × List String
  fill limit used [] = ([], [])
  fill limit used ((_, (name, obs)) ∷ rs) =
      let (keep, evict) = fill limit (add_word used obs.bytes) rs in
      let (keep', evict') = fill limit used rs in
      if obs.pinned || leb (add_word used obs.bytes) limit
      then (name ∷ keep, evict)
      else (keep', name ∷ evict')

  abbrev pub limit_of : ℕ → ℕ
  limit_of vram_budget = float.to_usize (float.mul (float.of_nat vram_budget) (float.literal 85 2))

  unfoldable pub plan : TierPolicy F → List (String × PageObs F) → ℕ → List String × List String
  unfolding ranked sort_ranked fill
  plan p candidates vram_budget = fill (limit_of vram_budget) 0 (sort_ranked (ranked p candidates))
