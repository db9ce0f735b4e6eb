-- ===== src/Tiered/Sweep.antt =====
-- src/tiered.rs: the membrane of a pool and the sweep that it drives.
use Prim.Native.String.{String}
use vugva.Common.{ℕ, Bool, true, false, Option, none, some, List, [], ◌∷◌, if◌then◌else◌}
use vugva.Membrane.{Float, PageObs, TierPolicy, Membrane, decay, rate, plan}
use vugva.Vmt.{Tier, vram, Page, get}
use vugva.Action.{done, Action, pure, ignore, modify, ◌>>◌}
use vugva.Driver.{Driver}
use vugva.Tiered.State.{TieredPool}
use vugva.Tiered.Demote.{demote, idle_sweep}
use vugva.Tiered.Promote.{access}

-- A pool with the rest of its membrane and its policy, which no other method reads.
pub record SweptPool (F W : Type 0) : Type 0 where
  pub pool : TieredPool W
  pub rates : List (String × F)
  pub sweeps : ℕ
  pub policy : TierPolicy F

-- An action on the pool.
abbrev pub on_pool : {F W A : Type 0} → Action (TieredPool W) A → Action (SweptPool F W) A
on_pool m s = let (r, p) = m s.pool in (r, record s { pool = p })

unfoldable pub enable_membrane : {W : Type 0} → ℕ → TieredPool W → TieredPool W
enable_membrane vram_budget s = record s { membrane_budget = some vram_budget }

unfoldable pub is_in_vram : Tier → Bool
is_in_vram vram = true
is_in_vram _ = false

-- `lookup(name).map(|p| p.tier == Tier::Vram).unwrap_or(missing)`
abbrev pub resident_or : Option Page → Bool → Bool
resident_or none missing = missing
resident_or (some page) missing = is_in_vram page.tier

module _ {F W : Type 0} (cuda : Driver W) where
  abbrev pub evict_one : String → Action (SweptPool F W) (Unit {0})
  evict_one name s =
      (if resident_or (get name s.pool.vmt.pages) false
          then on_pool (demote cuda name)
          else pure tt)
        s

  unfoldable pub evict_all : List String → Action (SweptPool F W) (Unit {0})
  unfolding demote is_in_vram
  evict_all [] = pure tt
  evict_all (name ∷ names) = evict_one name >> evict_all names

  -- A promotion's error is dropped.
  unfoldable pub keep_all : List String → Action (SweptPool F W) (Unit {0})
  unfolding access is_in_vram
  keep_all [] = pure tt
  keep_all (name ∷ names) =
      (λ s.
        (if resident_or (get name s.pool.vmt.pages) true
            then pure tt
            else on_pool (ignore (access cuda name 0)))
          s)
      >> keep_all names

module _ {F W : Type 0} (float : Float F) (cuda : Driver W) where
  abbrev pub membrane_of : SweptPool F W → Membrane F
  membrane_of s = record { rates = s.rates; hits = s.pool.membrane_hits; sweeps = s.sweeps }

  unfoldable pub membrane_rate : SweptPool F W → String → F
  unfolding rate
  membrane_rate s name = rate float (membrane_of s) name

  -- `self.membrane.decay()`
  unfoldable pub decay_rates : SweptPool F W → SweptPool F W
  unfolding decay
  decay_rates s =
      let m = decay float (membrane_of s) in
      record s {
        rates = m.rates;
        sweeps = m.sweeps;
        pool = record s.pool { membrane_hits = m.hits };
      }

  unfoldable pub candidates : Membrane F → List (String × Page) → List (String × PageObs F)
  unfolding rate is_in_vram
  candidates m [] = []
  candidates m ((name, page) ∷ pages) =
      (
        name,
        record {
          rate = rate float m name;
          bytes = page.size_bytes;
          resident = is_in_vram page.tier;
          pinned = page.pinned;
        },
      )
      ∷ candidates m pages

  unfoldable pub planned_sweep : ℕ → Action (SweptPool F W) (Unit {0})
  unfolding decay_rates candidates plan evict_all keep_all
  planned_sweep budget = modify decay_rates >> λ s.
      let (keep, evict) =
        plan float s.policy (candidates (membrane_of s) s.pool.vmt.pages) budget in
      (evict_all cuda evict >> keep_all cuda keep) s

  unfoldable pub membrane_sweep : Action (SweptPool F W) (Unit {0})
  unfolding planned_sweep
  membrane_sweep s = elim s.pool.membrane_budget [
    | none ↦ (done tt, s)
    | some budget ↦ planned_sweep budget s
  ]

  unfoldable pub background_sweep : Action (SweptPool F W) (Unit {0})
  unfolding membrane_sweep idle_sweep
  background_sweep s = elim s.pool.membrane_budget [
    | some _ ↦ membrane_sweep s
    | none ↦ on_pool (idle_sweep cuda) s
  ]
