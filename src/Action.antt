-- ===== src/Action.antt =====
-- Methods that change a state, return early with an error, or panic.
pub mod Ends
use Prim.Native.String.{String}
use vugva.Common.{ℕ, ◌==◌, Option, none, some, if◌then◌else◌}
use vugva.Error.{VugvaError, cuda_error, io, IoError, Result, ok, err}

-- How a method ends: with its result or its error, or in a panic.
pub data Outcome (A : Type 0) : Type 0 where
  done : A → Outcome A
  failed : VugvaError → Outcome A
  panicked : Outcome A

abbrev pub Action : Type 0 → Type 0 → Type 0
Action S A = S → Outcome A × S

module _ {S A : Type 0} where
  abbrev pub pure : A → Action S A
  pure a s = (done a, s)

  abbrev pub raise : VugvaError → Action S A
  raise e s = (failed e, s)

  abbrev pub panic : Action S A
  panic s = (panicked, s)

  abbrev pub gets : (S → A) → Action S A
  gets f s = (done (f s), s)

  -- `ok_or`
  abbrev pub or_raise : Option A → VugvaError → Action S A
  or_raise none e = raise e
  or_raise (some a) _ = pure a

  -- `unwrap`, and an index out of range.
  abbrev pub or_panic : Option A → Action S A
  or_panic none = panic
  or_panic (some a) = pure a

  abbrev pub lift : Result A → Action S A
  lift (ok a) = pure a
  lift (err e) = raise e

  -- A call with no code.
  abbrev pub ask : (S → A × S) → Action S A
  ask f s = let (a, s') = f s in (done a, s')

abbrev pub modify : {S : Type 0} → (S → S) → Action S (Unit {0})
modify f s = (done tt, f s)

-- How an action goes on from each end of the one before it.
abbrev pub then_end : {S A B : Type 0} → (A → Action S B) → S → Outcome A → Outcome B × S
then_end f s (done a) = f a s
then_end f s (failed e) = (failed e, s)
then_end f s panicked = (panicked, s)

infixl 5 ◌>>=◌ ◌>>◌
abbrev pub ◌>>=◌ : {S A B : Type 0} → Action S A → (A → Action S B) → Action S B
◌>>=◌ m f s = let (r, s') = m s in then_end f s' r

abbrev pub ◌>>◌ : {S A B : Type 0} → Action S A → Action S B → Action S B
m >> k = m >>= λ _. k

abbrev pub of_outcome : {S A : Type 0} → Outcome A → Action S A
of_outcome r s = (r, s)

-- A result that is looked at before the method goes on: the error, if there was one.
abbrev pub attempt : {S A : Type 0} → Action S A → Action S (Option VugvaError)
attempt m s =
    let (r, s') = m s in
    elim r [ done _ ↦ (done none, s') | failed e ↦ (done (some e), s') | panicked ↦ (panicked, s') ]

-- `let _ = m;`: the error is dropped, what was done stays.
abbrev pub ignore : {S A : Type 0} → Action S A → Action S (Unit {0})
ignore m = attempt m >> pure tt

-- `check_cu` on a call of the driver.
abbrev pub call : {S : Type 0} → String → (S → ℕ × S) → Action S (Unit {0})
call fn_name f = ask f >>= λ code. if code == 0 then pure tt else raise (cuda_error fn_name code)

-- `check_cu` on a call that also writes to an out-pointer.
abbrev pub call_for : {S A : Type 0} → String → (S → (ℕ × A) × S) → Action S A
call_for fn_name f =
    ask f >>= λ out. if out.0 == 0 then pure out.1 else raise (cuda_error fn_name out.0)

-- File input and output: `none` for success, or the error's code.
abbrev pub file_call : {S : Type 0} → (S → Option ℕ × S) → Action S (Unit {0})
file_call f = ask f >>= λ e. elim e [ none ↦ pure tt | some code ↦ raise (io (IoError.os code)) ]
