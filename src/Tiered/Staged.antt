-- ===== src/Tiered/Staged.antt =====
-- What `TieredPool::access` answers, and which pages it touches.
use Prim.Native.String.{String, ◌++◌ as str_append}
use vugva.Common.{
  ℕ, ◌≡◌, ◌≢◌, refl, ◌∙◌, Bool, true, false, Option, none, some, get_elem?, set, leb, if◌then◌else◌,
}
use vugva.Error.{VugvaError, Result, ok, err, unknown_allocation}
use vugva.Pool.{DramPool, free as pool_free}
use vugva.Vmt.{DramChunk, Page, get}
use vugva.Action.{Outcome, done, failed, panicked, raise, lift, attempt, ignore, ◌>>=◌, ◌>>◌}
use vugva.Action.Ends.{Leaves}
use vugva.Driver.{Driver}
use vugva.Tiered.State.{TieredPool}
use vugva.Tiered.Vram.{free_vram_on_gpu}
use vugva.Tiered.Promote.{
  stage, copy_in, borrow_stage, return_stage, finish_cold, access_owned, access_borrowed,
  access_staged, access_ssd,
}
use vugva.Tiered.Confined.{
  Confined, Frames-Confined, attempt-Confined, or_raise-Confined, alloc_vram-Confined,
}
use vugva.Tiered.Resident.{Resident, Promotes, bind-Promotes, then-Promotes}
use vugva.Tiered.Promoted.{
  raise-Promotes, copy_in-Confined, finish_cold-Promotes, access_owned-Promotes,
}

module _ {W : Type 0} (cuda : Driver W) (name : String) (gpu_idx now : ℕ) where
  borrow_stage-Confined : (total : ℕ) → Confined name (borrow_stage cuda gpu_idx total)
  unfolding borrow_stage
  borrow_stage-Confined total =
      Frames-Confined (borrow_stage cuda gpu_idx total)
        (λ s. from s (get_elem? s.dram_pools gpu_idx))
    where
      lifted :
          (s : TieredPool W) (r : Result (ℕ × ℕ) × DramPool)
          → (lift r.0 (record s { dram_pools = set s.dram_pools gpu_idx r.1 })).1.vmt ≡ s.vmt
      lifted s (ok a, p) = refl
      lifted s (err e, p) = refl

      from :
          (s : TieredPool W) (o : Option DramPool)
          → (elim o as (λ _. Outcome (ℕ × ℕ) × TieredPool W) [
            | none ↦ (panicked, s)
            | some pool ↦
                lift
                  (stage 64 pool total).0
                  (record s { dram_pools = set s.dram_pools gpu_idx (stage 64 pool total).1 })
          ]).1.vmt
            ≡ s.vmt
      from s none = refl
      from s (some pool) = lifted s (stage 64 pool total)

  return_stage-Confined : (ptr len : ℕ) → Confined name (return_stage cuda gpu_idx ptr len)
  unfolding return_stage
  return_stage-Confined ptr len =
      Frames-Confined (return_stage cuda gpu_idx ptr len)
        (λ s. from s (get_elem? s.dram_pools gpu_idx))
    where
      from :
          (s : TieredPool W) (o : Option DramPool)
          → (elim o as (λ _. Outcome (Unit {0}) × TieredPool W) [
            | none ↦ (panicked, s)
            | some pool ↦ (
              done tt,
              record s { dram_pools = set s.dram_pools gpu_idx (pool_free pool ptr len) },
            )
          ]).1.vmt
            ≡ s.vmt
      from s none = refl
      from s (some pool) = refl

  -- With the staging memory, the rest is a promotion.
  staged-Promotes :
      (offset total dst ptr len : ℕ)
      → Promotes name gpu_idx (
          attempt (copy_in cuda name gpu_idx offset ptr len dst total) >>= λ copy_res.
          return_stage cuda gpu_idx ptr len >> finish_cold cuda name gpu_idx now dst total copy_res)
  staged-Promotes offset total dst ptr len =
      bind-Promotes
        (attempt-Confined (copy_in-Confined cuda name name gpu_idx offset ptr len dst total))
        (λ copy_res.
          then-Promotes (return_stage-Confined ptr len)
            (finish_cold-Promotes cuda name gpu_idx now dst total copy_res))

  access_borrowed-Promotes :
      (offset total dst : ℕ)
      → Promotes name gpu_idx (access_borrowed cuda name gpu_idx now offset total dst)
  unfolding access_borrowed
  access_borrowed-Promotes offset total dst = record {
    confined = record {
      elsewhere = λ s i ne.
          elsewhere i ne (borrow_stage cuda gpu_idx total s)
          ∙ (borrow_stage-Confined total).elsewhere s i ne;
    };
    promotes = λ s. answer (borrow_stage cuda gpu_idx total s);
  }
    where
      give_up :
          (e : VugvaError)
          → Promotes {W = W} name gpu_idx (ignore (free_vram_on_gpu gpu_idx dst total) >> raise e)
      give_up e = raise-Promotes cuda name gpu_idx dst total e

      after : Outcome (ℕ × ℕ) × TieredPool W → Outcome ℕ × TieredPool W
      after r = elim r.0 as (λ _. Outcome ℕ × TieredPool W) [
        | panicked ↦ (panicked, r.1)
        | failed e ↦ (ignore (free_vram_on_gpu gpu_idx dst total) >> raise e) r.1
        | done (stage_ptr, stage_len) ↦
            (attempt (copy_in cuda name gpu_idx offset stage_ptr stage_len dst total)
                >>= λ copy_res.
                    return_stage cuda gpu_idx stage_ptr stage_len
                    >> finish_cold cuda name gpu_idx now dst total copy_res)
              r.1
      ]

      elsewhere :
          (i : String)
          → name ≢ i
          → (r : Outcome (ℕ × ℕ) × TieredPool W) → get i (after r).1.vmt.pages ≡ get i r.1.vmt.pages
      elsewhere i ne (panicked, t) = refl
      elsewhere i ne (failed e, t) = (give_up e).confined.elsewhere t i ne
      elsewhere i ne (done (ptr, len), t) =
          (staged-Promotes offset total dst ptr len).confined.elsewhere t i ne

      answer : (r : Outcome (ℕ × ℕ) × TieredPool W) → Leaves (Resident name gpu_idx) (after r)
      answer (panicked, t) = tt
      answer (failed e, t) = (give_up e).promotes t
      answer (done (ptr, len), t) = (staged-Promotes offset total dst ptr len).promotes t

  access_staged-Promotes :
      (backing : Option DramChunk) (offset total dst : ℕ)
      → Promotes name gpu_idx (access_staged cuda name gpu_idx now backing offset total dst)
  unfolding access_staged
  access_staged-Promotes none offset total dst = access_borrowed-Promotes offset total dst
  access_staged-Promotes (some c) offset total dst = from (leb total c.size_bytes)
    where
      from :
          (b : Bool)
          → Promotes name gpu_idx (
              if b
              then access_owned cuda name gpu_idx now offset total dst c.host_ptr
              else access_borrowed cuda name gpu_idx now offset total dst)
      from true = access_owned-Promotes cuda name gpu_idx now offset total dst c.host_ptr
      from false = access_borrowed-Promotes offset total dst

  pub access_ssd-Promotes :
      (backing : Option DramChunk) (page : Page)
      → Promotes name gpu_idx (access_ssd cuda name gpu_idx now backing page)
  unfolding access_ssd
  access_ssd-Promotes backing page =
      bind-Promotes
        (or_raise-Confined page.ssd_offset
          (unknown_allocation (str_append name ": page is on Tier::Ssd but has no spill offset")))
        (λ offset.
          bind-Promotes (alloc_vram-Confined cuda gpu_idx page.size_bytes)
            (λ dst. access_staged-Promotes backing offset page.size_bytes dst))
