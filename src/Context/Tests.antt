-- ===== src/Context/Tests.antt =====
-- Contexts with a driver that counts references, refuses device 2, and keeps a stack of contexts.
use vugva.Common.{ℕ, ◌+◌, ◌-◌, ◌==◌, ◌≡◌, refl, inl, inr, List, [], ◌∷◌, if◌then◌else◌, Bool-cases}
use vugva.Action.{ask}
use vugva.Driver.{Driver}
use vugva.Driver.Quiet.{quiet_on}
use vugva.Context.{PrimaryContext, new_registry, guarded_at}
use vugva.Context.Balance.{Counts, Balanced, new_registry-Balanced}
use vugva.Context.Scope.{Stacks, guarded_at-Restores}

abbrev counting : Driver (ℕ → ℕ)
counting = record quiet_on {
  retain_context = λ o w. (
    (if o == 2 then 101 else 0, 4096),
    λ d. w d + (if o == 2 then 0 else (if o == d then 1 else 0)),
  );
  release_context = λ o w. (0, λ d. w d - (if o == d then 1 else 0));
}

abbrev count_of : (ℕ → ℕ) → ℕ → ℕ
count_of w d = w d

counting-Counts : Counts counting count_of
counting-Counts = record {
  init_keeps = λ w d. refl;
  retain_adds = λ o d w. elim (Bool-cases (o == 2)) [ inl e ↦ rw e refl | inr e ↦ rw e refl ];
  release_drops = λ o d w. refl;
}

-- Devices 0 and 1 are retained, and released again when device 2 refuses.
new_registry-Balanced_example :
    Balanced counting count_of counting-Counts
      (0 ∷ 1 ∷ 2 ∷ [])
      1
      (λ _. 5)
      (new_registry counting (0 ∷ 1 ∷ 2 ∷ []) (λ _. 5))
new_registry-Balanced_example =
    new_registry-Balanced counting count_of counting-Counts (0 ∷ 1 ∷ 2 ∷ []) 1 (λ _. 5)

abbrev pop : List ℕ → List ℕ
pop [] = []
pop (c ∷ cs) = cs

abbrev stacking : Driver (List ℕ)
stacking = record quiet_on { push_current = λ c w. (0, c ∷ w); pop_current = λ w. (0, pop w) }

abbrev stack_of : List ℕ → List ℕ
stack_of w = w

stacking-Stacks : Stacks stacking stack_of
stacking-Stacks = record { push_adds = λ c w. refl; pop_drops = λ c cs w e. rw e refl }

abbrev two_contexts : List PrimaryContext
two_contexts = record { device = 0; ctx = 70 } ∷ record { device = 1; ctx = 71 } ∷ []

guarded_at-Restores_example :
    stack_of (guarded_at stacking two_contexts 1 (ask (stacking.mem_alloc 256)) (9 ∷ [])).1 ≡ 9 ∷ []
guarded_at-Restores_example =
    guarded_at-Restores stacking stack_of stacking-Stacks two_contexts 1
      (ask (stacking.mem_alloc 256)) (λ w. refl) (9 ∷ [])
