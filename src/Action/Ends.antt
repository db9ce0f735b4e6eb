-- ===== src/Action/Ends.antt =====
-- What holds of the result of an action that ends with one.
use vugva.Action.{Outcome, done, failed, panicked, Action, then_end, ◌>>=◌}

module _ {S : Type 0} where
  abbrev pub Ends : {A : Type 0} → (A → Type 0) → Outcome A × S → Type 0
  Ends P (done a, s) = P a
  Ends P (failed e, s) = Unit {0}
  Ends P (panicked, s) = Unit {0}

  then_end-Ends :
      {A B : Type 0} (P : A → Type 0) (Q : B → Type 0) (r : Outcome A) (s : S) (k : A → Action S B)
      → Ends P (r, s)
      → ((a : A) (t : S) → P a → Ends Q (k a t))
      → Ends Q (then_end k s r)
  then_end-Ends P Q (done a) s k h f = f a s h
  then_end-Ends P Q (failed e) s k h f = tt
  then_end-Ends P Q panicked s k h f = tt

  -- One action after another, from any state.
  pub bind-Ends :
      {A B : Type 0} (P : A → Type 0) (Q : B → Type 0) (m : Action S A) (k : A → Action S B)
      → ((s : S) → Ends P (m s))
      → ((a : A) (t : S) → P a → Ends Q (k a t))
      → (s : S) → Ends Q ((m >>= k) s)
  bind-Ends P Q m k h f s = then_end-Ends P Q (m s).0 (m s).1 k (h s) f

  -- Nothing is known of the first.
  pub after-Ends :
      {A B : Type 0} (Q : B → Type 0) (m : Action S A) (k : A → Action S B)
      → ((a : A) (t : S) → Ends Q (k a t))
      → (s : S) → Ends Q ((m >>= k) s)
  after-Ends {A} Q m k f s = after (m s)
    where
      after : (r : Outcome A × S) → Ends Q (then_end k r.1 r.0)
      after (done a, t) = f a t
      after (failed e, t) = tt
      after (panicked, t) = tt

module _ {S : Type 0} where
  -- What holds of the result and of the state that it comes with.
  abbrev pub Leaves : {A : Type 0} → (A → S → Type 0) → Outcome A × S → Type 0
  Leaves P (done a, s) = P a s
  Leaves P (failed e, s) = Unit {0}
  Leaves P (panicked, s) = Unit {0}

  pub then_end-Leaves :
      {A B : Type 0} (P : A → S → Type 0) (Q : B → S → Type 0) (r : Outcome A × S)
      (k : A → Action S B)
      → Leaves P r
      → ((a : A) (t : S) → P a t → Leaves Q (k a t))
      → Leaves Q (then_end k r.1 r.0)
  then_end-Leaves P Q (done a, s) k h f = f a s h
  then_end-Leaves P Q (failed e, s) k h f = tt
  then_end-Leaves P Q (panicked, s) k h f = tt
