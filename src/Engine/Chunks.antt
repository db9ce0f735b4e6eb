-- ===== src/Engine/Chunks.antt =====
-- How the engine splits an allocation over its GPUs.
use native.Mathlib.Omega.{div_fact}
use vugva.Common.{
  ℕ, suc, ◌+◌, ◌-◌, ◌*◌, ◌/◌, ◌%◌, ◌^◌, ◌≤◌, ◌<◌, ◌≡◌, refl, subst, List, [], ◌∷◌, length, arith,
  eq→==, ne→not-==, sub_word, mul_word, sub_word-eq,
}
use vugva.Engine.{actual_chunk}

-- The sizes of the chunks from GPU `i` on.
abbrev pub remaining : ℕ → ℕ → ℕ → List ℕ → ℕ
remaining total num i [] = 0
remaining total num i (o ∷ os) = actual_chunk total num i + remaining total num (suc i) os

mul-suc : (c i : ℕ) → c * suc i ≡ c * i + c
mul-suc c i = grind arith

sub_words : (a b : ℕ) → b ≤ a → a < 2 ^ 64 → sub_word a (b % 2 ^ 64) ≡ a - b
sub_words a b h k = omega arith

last_chunk :
    (total num i : ℕ)
    → num ≡ suc i
    → num < 2 ^ 64
    → total < 2 ^ 64
    → (total / num) * i ≤ total
    → actual_chunk total num i ≡ total - (total / num) * i
unfolding actual_chunk
last_chunk total num i e h k p =
    rw (eq→== i (sub_word num 1) (omega (arith, sub_word-eq num 1 (omega (arith, e)) h, e))) (
      subst (λ n. sub_word total (mul_word (total / num) n) ≡ total - (total / num) * i) {x = i}
        (omega (arith, sub_word-eq num 1 (omega (arith, e)) h, e))
        (sub_words total (total / num * i) p k))

inner_chunk :
    (total num i : ℕ) → suc i < num → num < 2 ^ 64 → actual_chunk total num i ≡ total / num
unfolding actual_chunk
inner_chunk total num i e h =
    rw
      (ne→not-== i (sub_word num 1)
        (λ q. omega (arith, sub_word-eq num 1 (omega (arith, e)) h, q, e)))
      refl

remaining_total :
    (total num i o : ℕ) (os : List ℕ)
    → i + suc (length os) ≡ num
    → num < 2 ^ 64
    → total < 2 ^ 64
    → (total / num) * i + (total / num) * suc (length os) ≤ total
    → (total / num) * i + remaining total num i (o ∷ os) ≡ total
remaining_total total num i o [] e h k p =
    omega (arith, last_chunk total num i (omega (arith, e)) h k (omega (arith, p)), p)
remaining_total total num i o (o' ∷ os) e h k p =
    let c : ℕ = total / num in
    let later =
      remaining_total total num (suc i) o' os (omega (arith, e)) h k
        (omega (arith, mul-suc c i, mul-suc c (suc (length os)), p)) in
    omega (arith, later, mul-suc c i, inner_chunk total num i (omega (arith, e)) h)

-- A split over at least one GPU loses no byte.
pub remaining_all :
    (total o : ℕ) (os : List ℕ)
    → suc (length os) < 2 ^ 64
    → total < 2 ^ 64
    → remaining total (suc (length os)) 0 (o ∷ os) ≡ total
remaining_all total o os h k = omega (
  arith,
  remaining_total total (suc (length os)) 0 o os (omega arith) h k
      (omega (arith, div_fact total (length os))),
)
