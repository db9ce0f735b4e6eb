-- ===== src/Gpu/Enable.antt =====
-- What `enable_all` does to a matrix.
use vugva.Common.{
  ℕ, zero, suc, ◌==◌, ◌≡◌, Bool, true, false, Option, none, some, List, [], ◌∷◌, if◌then◌else◌,
  get_elem?, length, not-==→ne, refl,
}
use vugva.Action.{Outcome, done, failed, panicked, or_panic, then_end, ◌>>◌}
use vugva.Driver.{Driver}
use vugva.Context.{PrimaryContext, retain_all, enter, leave}
use vugva.Gpu.Peer.{
  PeerMatrix, cell, set_cell, Change, pair_tests, enable_pair, enable_row, guarded_row, enable_rows,
  own_contexts, is_enabled, can_access, enable_all, outside, keep_contexts,
}
use vugva.Gpu.Enabled.{Grown, Grown-refl, Grown-trans, set_cell-Grown}

module _ {W : Type 0} (cuda : Driver W) where
  -- A change after which the matrix has grown from `m`, however it ends.
  abbrev GrownFrom : {A : Type 0} → PeerMatrix → Outcome A × (PeerMatrix × W) → Type 0
  GrownFrom m r = Grown m r.1.0

  then_end-Grown :
      {A B : Type 0} (m : PeerMatrix) (r : Outcome A) (s : PeerMatrix × W) (k : A → Change cuda B)
      → Grown m s.0
      → ((a : A) → Grown s.0 (k a s).1.0)
      → Grown m (then_end k s r).1.0
  then_end-Grown m (done a) s k g h = Grown-trans m s.0 (k a s).1.0 g (h a)
  then_end-Grown m (failed e) s k g h = g
  then_end-Grown m panicked s k g h = g

  called-Grown :
      (m : PeerMatrix) (i j : ℕ) (b : Bool)
      → cell m.can_access i j ≡ some true
      → cell m.enabled i j ≡ some false
      → (i == j) ≡ false
      → Grown m (if b then record m { enabled = set_cell m.enabled i j } else m)
  called-Grown m i j true can off other = set_cell-Grown m i j can (not-==→ne i j other) off
  called-Grown m i j false can off other = Grown-refl m

  pair_tests-Grown :
      (i j : ℕ) (m : PeerMatrix) (w : W) (same : Bool) (can on : Option Bool)
      (c : Option PrimaryContext)
      → (i == j) ≡ same
      → cell m.can_access i j ≡ can
      → cell m.enabled i j ≡ on
      → Grown m (pair_tests cuda i j same can on c (m, w)).1.0
  pair_tests-Grown i j m w true can on c e f g = Grown-refl m
  pair_tests-Grown i j m w false none on c e f g = Grown-refl m
  pair_tests-Grown i j m w false (some false) on c e f g = Grown-refl m
  pair_tests-Grown i j m w false (some true) none c e f g = Grown-refl m
  pair_tests-Grown i j m w false (some true) (some true) c e f g = Grown-refl m
  pair_tests-Grown i j m w false (some true) (some false) none e f g = Grown-refl m
  pair_tests-Grown i j m w false (some true) (some false) (some c) e f g =
      called-Grown m i j _ f g e

  enable_pair-Grown : (i j : ℕ) (s : PeerMatrix × W) → Grown s.0 (enable_pair cuda i j s).1.0
  unfolding enable_pair
  enable_pair-Grown i j s =
      pair_tests-Grown i j s.0 s.1 _ _ _ (get_elem? s.0.primary_ctxs j) refl refl refl

  enable_row-Grown :
      (i rounds j : ℕ) (s : PeerMatrix × W) → Grown s.0 (enable_row cuda i rounds j s).1.0
  unfolding enable_row
  enable_row-Grown i zero j s = Grown-refl s.0
  enable_row-Grown i (suc rounds) j s =
      let (r, s') = enable_pair cuda i j s in
      then_end-Grown s.0 r s' (λ _. enable_row cuda i rounds (suc j)) (enable_pair-Grown i j s)
        (λ _. enable_row-Grown i rounds (suc j) s')

  guarded_row-Grown : (n i : ℕ) (s : PeerMatrix × W) → Grown s.0 (guarded_row cuda n i s).1.0
  unfolding guarded_row
  guarded_row-Grown n i s = at (get_elem? s.0.primary_ctxs i)
    where
      entered :
          (c : PrimaryContext) (r : Outcome (Unit {0}) × W)
          → Grown s.0
              (then_end
                (λ _ t. let (q, (m, w)) = enable_row cuda i n 0 t in (q, (m, leave cuda w)))
                (s.0, r.1)
                r.0).1.0
      entered c (done _, w) = enable_row-Grown i n 0 (s.0, w)
      entered c (failed e, w) = Grown-refl s.0
      entered c (panicked, w) = Grown-refl s.0

      at :
          (o : Option PrimaryContext)
          → Grown s.0
              (then_end
                (λ c. outside cuda (enter cuda c) >> λ t.
                  let (q, (m, w)) = enable_row cuda i n 0 t in (q, (m, leave cuda w)))
                (or_panic o s).1
                (or_panic o s).0).1.0
      at none = Grown-refl s.0
      at (some c) = entered c (enter cuda c s.1)

  enable_rows-Grown :
      (n rounds i : ℕ) (s : PeerMatrix × W) → Grown s.0 (enable_rows cuda n rounds i s).1.0
  unfolding enable_rows
  enable_rows-Grown n zero i s = Grown-refl s.0
  enable_rows-Grown n (suc rounds) i s =
      let (r, s') = guarded_row cuda n i s in
      then_end-Grown s.0 r s' (λ _. enable_rows cuda n rounds (suc i)) (guarded_row-Grown n i s)
        (λ _. enable_rows-Grown n rounds (suc i) s')

  keep_contexts-Grown :
      (ctxs : List PrimaryContext) (s : PeerMatrix × W) → Grown s.0 (keep_contexts cuda ctxs s).1.0
  unfolding is_enabled can_access
  keep_contexts-Grown ctxs s = record { same_access = refl; keeps = λ i j h. h; stays = λ h. h }

  own_contexts-Grown :
      (ordinals : List ℕ) (ctxs : List PrimaryContext) (s : PeerMatrix × W)
      → Grown s.0 (own_contexts cuda ordinals ctxs s).1.0
  unfolding own_contexts
  own_contexts-Grown ordinals [] s =
      then_end-Grown s.0 (retain_all cuda [] ordinals s.1).0
        (s.0, (retain_all cuda [] ordinals s.1).1) (keep_contexts cuda) (Grown-refl s.0)
        (λ ctxs. keep_contexts-Grown ctxs (s.0, (retain_all cuda [] ordinals s.1).1))
  own_contexts-Grown ordinals (c ∷ cs) s = Grown-refl s.0

  -- However `enable_all` ends, with an error or a panic too, peer access that the hardware reports stays as it is,
  -- no pair that was enabled is lost, and if only pairs of two devices with access were enabled, so it is after.
  pub enable_all-Grown :
      (ordinals : List ℕ) (s : PeerMatrix × W) → Grown s.0 (enable_all cuda ordinals s).1.0
  unfolding enable_all
  enable_all-Grown ordinals s =
      let (r, s') = own_contexts cuda ordinals s.0.primary_ctxs s in
      let n = length ordinals in
      then_end-Grown s.0 r s' (λ _. enable_rows cuda n n 0)
        (own_contexts-Grown ordinals s.0.primary_ctxs s) (λ _. enable_rows-Grown n n 0 s')
