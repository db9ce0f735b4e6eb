-- ===== src/Membrane/Decimals.antt =====
-- Numbers of four decimals in place of floating-point ones, for tests.
use Prim.Native.Nat.{compare}
use vugva.Common.{ℕ, ◌+◌, ◌-◌, ◌*◌, ◌/◌, ◌^◌, some}
use vugva.Membrane.{Float}

abbrev pub decimals : Float ℕ
decimals = record {
  infinity = 10 ^ 20;
  literal = λ n k. n * 10 ^ (4 - k);
  of_nat = λ n. n * 10000;
  to_usize = λ a. a / 10000;
  add = λ a b. a + b;
  sub = λ a b. a - b;
  mul = λ a b. a * b / 10000;
  div = λ a b. a * 10000 / b;
  partial_cmp = λ a b. some (compare a b);
}
