-- ===== src/Tiered/SafeStage.antt =====
-- A promotion from the spill file through borrowed staging memory keeps the host memory safe.
use Prim.Native.String.{String}
use vugva.Common.{
  ℕ, ◌≤◌, ◌^◌, ◌≡◌, refl, sym, ap, ◌∙◌, subst, Option, none, some, [], ◌∷◌, get_elem?, set, arith,
}
use vugva.Error.{VugvaError, Result, ok, err}
use vugva.Pool.{DramPool, free as pool_free}
use vugva.Pool.Lends.{Within}
use vugva.Action.{
  Outcome, done, failed, panicked, raise, lift, attempt, ignore, then_end, ◌>>=◌, ◌>>◌,
}
use vugva.Driver.{Driver}
use vugva.Tiered.State.{TieredPool}
use vugva.Tiered.Promote.{stage, copy_in, borrow_stage, return_stage, finish_cold, access_borrowed}
use vugva.Tiered.Backing.{backing, blocks}
use vugva.Tiered.Backed.{Backed}
use vugva.Tiered.Staging.{
  Lease, stage-Lease, leased-Backed, returned-Backed, get-set_self, get-Grounded, set_same,
}
use vugva.Tiered.Keeps.{SameHost, attempt-Keeps}
use vugva.Tiered.Loaded.{copy_in-Keeps, finish_cold-Keeps, give_up-Keeps}
use vugva.Tiered.Vram.{free_vram_on_gpu}
use vugva.Tiered.Safe.{HostSafe, SameHost-HostSafe, HostSafe-fewer, Safely}

module _ {W : Type 0} (cuda : Driver W) where
  return_stage_found :
      (gpu_idx ptr len : ℕ) (q : DramPool) (t : TieredPool W)
      → get_elem? t.dram_pools gpu_idx ≡ some q
      → return_stage cuda gpu_idx ptr len t
        ≡ (done tt, record t { dram_pools = set t.dram_pools gpu_idx (pool_free q ptr len) })
  unfolding return_stage
  return_stage_found gpu_idx ptr len q t e = rw (e, return_stage) refl

  -- The staging memory goes back however the copy through it has ended.
  after_copy-HostSafe :
      (name : String) (gpu_idx now total dst ptr len : ℕ) (q : DramPool) (s : TieredPool W)
      (r : Outcome (Option VugvaError) × TieredPool W)
      → HostSafe ((ptr, len) ∷ []) s
      → get_elem? s.dram_pools gpu_idx ≡ some q
      → Within (ptr, len) q
      → SameHost s r.1
      → HostSafe []
          (then_end
            (λ copy_res.
              return_stage cuda gpu_idx ptr len
              >> finish_cold cuda name gpu_idx now dst total copy_res)
            r.1
            r.0).1
  after_copy-HostSafe name gpu_idx now total dst ptr len q s (done copy_res, t) h e w same =
      let h' = SameHost-HostSafe ((ptr, len) ∷ []) s t same h in
      let e' = ap (λ ps. get_elem? ps gpu_idx) same.0 ∙ e in
      let t' : TieredPool W = record t {
        dram_pools = set t.dram_pools gpu_idx (pool_free q ptr len);
      } in
      let finish = finish_cold cuda name gpu_idx now dst total copy_res in
      subst
        (λ (r : Outcome (Unit {0}) × TieredPool W). HostSafe [] (then_end (λ _. finish) r.1 r.0).1)
        (sym (return_stage_found gpu_idx ptr len q t e'))
        (SameHost-HostSafe [] t' (finish t').1
          ((finish_cold-Keeps cuda name gpu_idx now dst total copy_res).keeps t')
          (record {
            backed =
                returned-Backed t.dram_pools (blocks (backing t.vmt.pages)) gpu_idx q ptr len
                  h'.backed e' w;
            small = h'.small;
          }))
  after_copy-HostSafe name gpu_idx now total dst ptr len q s (failed x, t) h e w same =
      HostSafe-fewer ((ptr, len) ∷ []) t (SameHost-HostSafe ((ptr, len) ∷ []) s t same h)
  after_copy-HostSafe name gpu_idx now total dst ptr len q s (panicked, t) h e w same =
      HostSafe-fewer ((ptr, len) ∷ []) t (SameHost-HostSafe ((ptr, len) ∷ []) s t same h)

  -- What is known after the loop for staging memory.
  abbrev Borrowed : ℕ → Outcome (ℕ × ℕ) × TieredPool W → Type 0
  Borrowed gpu_idx (done (ptr, len), t) =
      HostSafe ((ptr, len) ∷ []) t
      × ((q : DramPool) × (get_elem? t.dram_pools gpu_idx ≡ some q) × Within (ptr, len) q)
  Borrowed gpu_idx (failed e, t) = HostSafe [] t
  Borrowed gpu_idx (panicked, t) = HostSafe [] t

  leased-Borrowed :
      (gpu_idx total : ℕ) (s : TieredPool W) (pool : DramPool) (r : Result (ℕ × ℕ) × DramPool)
      → HostSafe [] s
      → total ≤ 2 ^ 63
      → get_elem? s.dram_pools gpu_idx ≡ some pool
      → Lease pool total r
      → Borrowed gpu_idx (lift r.0 (record s { dram_pools = set s.dram_pools gpu_idx r.1 }))
  leased-Borrowed gpu_idx total s pool (ok (ptr, len), q) h small e (g, le) = (
    record {
      backed =
          leased-Backed s.dram_pools (blocks (backing s.vmt.pages)) gpu_idx pool q ptr len h.backed
            e (omega (arith, small, le)) g;
      small = h.small;
    },
    (q, get-set_self s.dram_pools gpu_idx pool q e, g.within),
  )
  leased-Borrowed gpu_idx total s pool (err x, q) h small e same = record {
    backed =
        subst (λ ps. Backed ps (blocks (backing s.vmt.pages)))
          (sym (ap (λ p. set s.dram_pools gpu_idx p) same ∙ set_same s.dram_pools gpu_idx pool e))
          h.backed;
    small = h.small;
  }

  borrow_stage-Borrowed :
      (gpu_idx total : ℕ) (s : TieredPool W)
      → HostSafe [] s
      → total ≤ 2 ^ 63
      → Borrowed gpu_idx (borrow_stage cuda gpu_idx total s)
  unfolding borrow_stage
  borrow_stage-Borrowed gpu_idx total s h small = from (get_elem? s.dram_pools gpu_idx) refl
    where
      from :
          (o : Option DramPool)
          → get_elem? s.dram_pools gpu_idx ≡ o
          → Borrowed gpu_idx (elim o as (λ _. Outcome (ℕ × ℕ) × TieredPool W) [
            | none ↦ (panicked, s)
            | some pool ↦
                lift
                  (stage 64 pool total).0
                  (record s { dram_pools = set s.dram_pools gpu_idx (stage 64 pool total).1 })
          ])
      from none e = h
      from (some pool) e = leased-Borrowed gpu_idx total s pool (stage 64 pool total) h small e (
          stage-Lease 64 pool total (get-Grounded s.dram_pools gpu_idx pool h.backed.grounded e)
            small)

  pub access_borrowed-Safely :
      (name : String) (gpu_idx now offset total dst : ℕ)
      → total ≤ 2 ^ 63
      → Safely (access_borrowed cuda name gpu_idx now offset total dst)
  unfolding access_borrowed
  access_borrowed-Safely name gpu_idx now offset total dst small = record {
    safe = λ s h.
        from (borrow_stage cuda gpu_idx total s) (borrow_stage-Borrowed gpu_idx total s h small);
  }
    where
      from :
          (r : Outcome (ℕ × ℕ) × TieredPool W)
          → Borrowed gpu_idx r
          → HostSafe []
              (elim r.0 as (λ _. Outcome ℕ × TieredPool W) [
                | panicked ↦ (panicked, r.1)
                | failed e ↦ (ignore (free_vram_on_gpu gpu_idx dst total) >> raise e) r.1
                | done (stage_ptr, stage_len) ↦
                    (attempt (copy_in cuda name gpu_idx offset stage_ptr stage_len dst total)
                        >>= λ copy_res.
                            return_stage cuda gpu_idx stage_ptr stage_len
                            >> finish_cold cuda name gpu_idx now dst total copy_res)
                      r.1
              ]).1
      from (panicked, t) h = h
      from (failed e, t) h =
          SameHost-HostSafe [] t
            ((ignore (free_vram_on_gpu gpu_idx dst total) >> raise {A = ℕ} e) t).1
            ((give_up-Keeps cuda gpu_idx dst total e).keeps t) h
      from (done (ptr, len), t) (h, (q, e, w)) =
          after_copy-HostSafe name gpu_idx now total dst ptr len q t
            (attempt (copy_in cuda name gpu_idx offset ptr len dst total) t) h e w
            ((attempt-Keeps (copy_in-Keeps cuda name gpu_idx offset ptr len dst total)).keeps t)
