-- ===== src/Membrane/Tests.antt =====
-- A membrane at concrete inputs, with numbers of four decimals in place of floating-point ones.
use Prim.Native.String.{String}
use text.Mathlib.Text.{◌==◌ as str_eq}
use vugva.Common.{ℕ, ◌≡◌, refl, false, some, List, [], ◌∷◌, if◌then◌else◌, arith, add_word}
use vugva.Membrane.{
  PageObs, TierPolicy, Membrane, entry, observe, or_else, decay, plan, limit_of, ranked, score,
  sort_ranked, insert_ranked, at_most, fill,
}
use vugva.Membrane.Decimals.{decimals}
use vugva.Membrane.Plan.{Split, plan-Split}
use vugva.Membrane.Rates.{folded, decay-observe}

abbrev page_of : ℕ → PageObs ℕ
page_of rate = record { rate = rate; bytes = 100; resident = false; pinned = false }

abbrev candidates : List (String × PageObs ℕ)
candidates = ("a", page_of 20000) ∷ ("b", page_of 90000) ∷ ("c", page_of 50000) ∷ []

abbrev policy : TierPolicy ℕ
policy = record { alpha = 10000; beta = 500 }

-- Of three pages of 100 bytes, two fit under 85% of 240 bytes: the hottest two.
hottest_two : plan decimals policy candidates 240 ≡ ("b" ∷ "c" ∷ [], "a" ∷ [])
unfolding plan ranked score sort_ranked insert_ranked at_most fill
hottest_two = refl

plan-Split_example :
    Split (limit_of decimals 240) 0 0 candidates (plan decimals policy candidates 240)
plan-Split_example = plan-Split decimals policy candidates 240 (omega arith)

abbrev warm : Membrane ℕ
warm = record { rates = ("a", 40000) ∷ []; hits = ("b", 2) ∷ []; sweeps = 3 }

decay-observe_example :
    let m' = decay decimals (record warm { hits = observe "a" warm.hits }) in
    (entry "b" m'.rates
      ≡ folded decimals (entry "b" warm.rates) (
          if str_eq "a" "b"
          then some (add_word (or_else (entry "b" warm.hits) 0) 1)
          else entry "b" warm.hits))
    × (m'.hits ≡ [])
decay-observe_example = decay-observe decimals warm "a" "b"
