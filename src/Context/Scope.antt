-- ===== src/Context/Scope.antt =====
-- A guard restores the context that was current before it.
use vugva.Common.{
  ℕ, ◌==◌, ◌≡◌, refl, ◌∙◌, inl, inr, Option, none, some, List, ◌∷◌, if◌then◌else◌, get_elem?,
  Bool-cases,
}
use vugva.Error.{invalid_gpu}
use vugva.Action.{Action, or_raise, ◌>>=◌}
use vugva.Driver.{Driver}
use vugva.Context.{PrimaryContext, enter, leave, guarded, get, guarded_at}

-- What the driver documents of the stack of current contexts of a thread.
pub record Stacks {W : Type 0} (cuda : Driver W) (stack : W → List ℕ) : Type 0 where
  pub push_adds :
      (c : ℕ) (w : W)
      → stack (cuda.push_current c w).1
        ≡ (if (cuda.push_current c w).0 == 0 then c ∷ stack w else stack w)
  pub pop_drops :
      (c : ℕ) (cs : List ℕ) (w : W) → stack w ≡ c ∷ cs → stack (cuda.pop_current w).1 ≡ cs

module _ {W : Type 0} (cuda : Driver W) (stack : W → List ℕ) (stacks : Stacks cuda stack) where
  -- An action that leaves the stack as it finds it, however it ends.
  abbrev pub Restores : {A : Type 0} → Action W A → Type 0
  Restores m = (w : W) → stack (m w).1 ≡ stack w

  guarded-Restores :
      {A : Type 0} (c : PrimaryContext) (body : Action W A)
      → Restores body
      → Restores (guarded cuda c body)
  unfolding guarded enter leave
  guarded-Restores c body keeps w = elim (Bool-cases ((cuda.push_current c.ctx w).0 == 0)) [
    | inl pushed ↦ rw pushed (
        stacks.pop_drops c.ctx (stack w) _
          (keeps (cuda.push_current c.ctx w).1 ∙ rw pushed at (stacks.push_adds c.ctx w)))
    | inr refused ↦ rw refused (rw refused at (stacks.push_adds c.ctx w))
  ]

  -- A guarded action on a GPU's context leaves the stack of contexts as it was, whether the index is out of
  -- range, the context cannot be entered, or the action ends in any way, if the action itself does.
  pub guarded_at-Restores :
      {A : Type 0} (contexts : List PrimaryContext) (idx : ℕ) (body : Action W A)
      → Restores body
      → Restores (guarded_at cuda contexts idx body)
  unfolding guarded_at get
  guarded_at-Restores contexts idx body keeps = from (get_elem? contexts idx)
    where
      from :
          (o : Option PrimaryContext)
          → Restores (or_raise o (invalid_gpu idx) >>= λ c. guarded cuda c body)
      from none w = refl
      from (some c) w = guarded-Restores c body keeps w
