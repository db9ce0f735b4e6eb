-- ===== src/Context/Balance.antt =====
-- Retaining and releasing contexts balance, on success and on an early return.
use vugva.Common.{
  ℕ, ◌+◌, ◌-◌, ◌==◌, ◌≡◌, refl, ap, ◌∙◌, subst, inl, inr, List, [], ◌∷◌, ◌++◌, if◌then◌else◌, arith,
  Bool-cases,
}
use vugva.Action.{Outcome, done, failed, panicked}
use vugva.Driver.{Driver}
use vugva.Context.{PrimaryContext, retain, release, release_all, retain_all, new_registry}

-- What the driver documents of its reference counts: `refs w d` references to the primary context of device `d`.
pub record Counts {W : Type 0} (cuda : Driver W) (refs : W → ℕ → ℕ) : Type 0 where
  pub init_keeps : (w : W) (d : ℕ) → refs (cuda.init w).1 d ≡ refs w d
  pub retain_adds :
      (o d : ℕ) (w : W)
      → refs (cuda.retain_context o w).1 d
        ≡ refs w d + (if (cuda.retain_context o w).0.0 == 0 then (if o == d then 1 else 0) else 0)
  pub release_drops :
      (o d : ℕ) (w : W) → refs (cuda.release_context o w).1 d ≡ refs w d - (if o == d then 1 else 0)

-- How many of the contexts are of device `d`.
unfoldable pub held : List PrimaryContext → ℕ → ℕ
held [] d = 0
held (c ∷ cs) d = (if c.device == d then 1 else 0) + held cs d

unfoldable pub wanted : List ℕ → ℕ → ℕ
wanted [] d = 0
wanted (o ∷ os) d = (if o == d then 1 else 0) + wanted os d

held-append :
    (cs : List PrimaryContext) (c : PrimaryContext) (d : ℕ)
    → held (cs ++ c ∷ []) d ≡ held cs d + (if c.device == d then 1 else 0)
unfolding held
held-append [] c d = omega arith
held-append (b ∷ cs) c d = omega (arith, held-append cs c d)

held-append_of :
    (cs : List PrimaryContext) (c : PrimaryContext) (o d : ℕ)
    → c.device ≡ o
    → held (cs ++ c ∷ []) d ≡ held cs d + (if o == d then 1 else 0)
held-append_of cs c o d here =
    subst (λ x. held (cs ++ c ∷ []) d ≡ held cs d + (if x == d then 1 else 0)) here
      (held-append cs c d)

module _ {W : Type 0} (cuda : Driver W) (refs : W → ℕ → ℕ) (counts : Counts cuda refs) where
  release_all-refs :
      (cs : List PrimaryContext) (d : ℕ) (w : W)
      → refs (release_all cuda cs w) d ≡ refs w d - held cs d
  unfolding release_all release held
  release_all-refs [] d w = omega arith
  release_all-refs (c ∷ cs) d w = omega (
    arith,
    release_all-refs cs d (cuda.release_context c.device w).1,
    counts.release_drops c.device d w,
  )

  -- What `retain` does to the count of device `d`.
  abbrev Retained : ℕ → ℕ → W → Outcome PrimaryContext × W → Type 0
  Retained o d w (done c, w') = (c.device ≡ o) × (refs w' d ≡ refs w d + (if o == d then 1 else 0))
  Retained o d w (failed e, w') = refs w' d ≡ refs w d
  Retained o d w (panicked, w') = refs w' d ≡ refs w d

  retain-Retained : (o d : ℕ) (w : W) → Retained o d w (retain cuda o w)
  unfolding retain
  retain-Retained o d w =
      let w0 : W = (cuda.init w).1 in
      elim (Bool-cases ((cuda.init w).0 == 0)) [
        | inr bad ↦ rw bad (counts.init_keeps w d)
        | inl good ↦ elim (Bool-cases ((cuda.retain_context o w0).0.0 == 0)) [
          | inr bad ↦
              rw (good, bad)
                (omega (arith, counts.init_keeps w d, rw bad at (counts.retain_adds o d w0)))
          | inl fine ↦
              rw (good, fine)
                (refl, omega (arith, counts.init_keeps w d, rw fine at (counts.retain_adds o d w0)))
        ]
      ]

  -- The loop, from contexts that it holds already.
  abbrev Gathered :
      List PrimaryContext → List ℕ → ℕ → W → Outcome (List PrimaryContext) × W → Type 0
  Gathered cs os d w (done all, w') =
      (held all d ≡ held cs d + wanted os d) × (refs w' d ≡ refs w d + wanted os d)
  Gathered cs os d w (failed e, w') = refs w' d ≡ refs w d - held cs d
  Gathered cs os d w (panicked, w') = refs w' d ≡ refs w d - held cs d

  -- The loop after one context more.
  regathered :
      (cs : List PrimaryContext) (c : PrimaryContext) (o : ℕ) (os : List ℕ) (d : ℕ) (w w1 : W)
      (r : Outcome (List PrimaryContext)) (w2 : W)
      → c.device ≡ o
      → refs w1 d ≡ refs w d + (if o == d then 1 else 0)
      → Gathered (cs ++ c ∷ []) os d w1 (r, w2)
      → Gathered cs (o ∷ os) d w (r, w2)
  unfolding wanted
  regathered cs c o os d w w1 (done all) w2 here more (h, k) =
      let size = held-append_of cs c o d here in (omega (arith, h, size), omega (arith, k, more))
  regathered cs c o os d w w1 (failed e) w2 here more g =
      let size = held-append_of cs c o d here in omega (arith, g, size, more)
  regathered cs c o os d w w1 panicked w2 here more g =
      let size = held-append_of cs c o d here in omega (arith, g, size, more)

  retain_all-Gathered :
      (cs : List PrimaryContext) (os : List ℕ) (d : ℕ) (w : W)
      → Gathered cs os d w (retain_all cuda cs os w)
  unfolding retain_all wanted
  retain_all-Gathered cs [] d w = (omega arith, omega arith)
  retain_all-Gathered cs (o ∷ os) d w =
      step (retain cuda o w).0 (retain cuda o w).1 (retain-Retained o d w)
        (λ c. retain_all-Gathered (cs ++ c ∷ []) os d (retain cuda o w).1)
    where
      step :
          (r : Outcome PrimaryContext) (w1 : W)
          → Retained o d w (r, w1)
          → ((c : PrimaryContext)
              → Gathered (cs ++ c ∷ []) os d w1 (retain_all cuda (cs ++ c ∷ []) os w1))
          → Gathered cs (o ∷ os) d w (elim r [
            | done c ↦ retain_all cuda (cs ++ c ∷ []) os w1
            | failed e ↦ (failed e, release_all cuda cs w1)
            | panicked ↦ (panicked, release_all cuda cs w1)
          ])
      step (done c) w1 (here, more) later = regathered cs c o os d w w1 _ _ here more (later c)
      step (failed e) w1 same later = release_all-refs cs d w1 ∙ ap (◌- held cs d) same
      step panicked w1 same later = release_all-refs cs d w1 ∙ ap (◌- held cs d) same

  -- What a registry's creation, and then its drop, does to the count of a device.
  abbrev pub Balanced : List ℕ → ℕ → W → Outcome (List PrimaryContext) × W → Type 0
  Balanced os d w (done cs, w') =
      (refs w' d ≡ refs w d + wanted os d) × (refs (release_all cuda cs w') d ≡ refs w d)
  Balanced os d w (failed e, w') = refs w' d ≡ refs w d
  Balanced os d w (panicked, w') = refs w' d ≡ refs w d

  balanced :
      (os : List ℕ) (d : ℕ) (w : W) (r : Outcome (List PrimaryContext)) (w' : W)
      → Gathered [] os d w (r, w')
      → Balanced os d w (r, w')
  unfolding held
  balanced os d w (done cs) w' (h, k) = (k, omega (arith, release_all-refs cs d w', h, k))
  balanced os d w (failed e) w' g = omega (arith, g)
  balanced os d w panicked w' g = omega (arith, g)

  -- With a driver that counts references as documented, a new registry holds one reference for each ordinal
  -- and gives exactly those back when it is dropped; if a device refuses, none of those before it is left behind.
  pub new_registry-Balanced :
      (os : List ℕ) (d : ℕ) (w : W) → Balanced os d w (new_registry cuda os w)
  unfolding new_registry
  new_registry-Balanced os d w =
      balanced os d w (retain_all cuda [] os w).0 (retain_all cuda [] os w).1
        (retain_all-Gathered [] os d w)
