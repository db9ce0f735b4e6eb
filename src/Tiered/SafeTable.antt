-- ===== src/Tiered/SafeTable.antt =====
-- `TieredPool::allocate` keeps the host memory of the pages safe.
use Prim.Native.String.{String, ◌++◌ as str_append}
use vugva.Common.{
  ℕ, ◌+◌, ◌/◌, ◌%◌, ◌==◌, ◌≤◌, ◌^◌, ◌≡◌, ◌≢◌, refl, sym, subst, inl, inr, Option, none, some, List,
  [], ◌++◌, length, arith, Bool-cases, not-==→ne,
}
use vugva.Error.{cold, Result, unknown_allocation}
use vugva.Range
use vugva.Range.{RangeAllocator}
use vugva.Vmt
use vugva.Vmt.{
  Tier, vram, dram, ssd, DramChunk, Page, get, put, drop, update, remove, tensor_bytes, new_page,
  allocated_page, VirtualMemoryTable,
}
use vugva.Action.{Outcome, done, Action, pure, raise, lift, then_end, ◌>>=◌, ◌>>◌}
use vugva.Tiered.State.{TieredPool, write_to}
use vugva.Tiered.Allocate.{place, allocate_cold, allocate_backed, allocate, initial_state}
use vugva.Tiered.Backing.{backing, blocks}
use vugva.Tiered.Backed.{blocks_of}
use vugva.Tiered.Placing.{place-Backed}
use vugva.Tiered.Keeps.{
  pure-Keeps, panic-Keeps, lift-Keeps, then-Keeps, bind-Keeps, write_to-Keeps, write_to_found,
}
use vugva.Tiered.Safe.{HostSafe, Safely, Keeps-Safely}
use vugva.Tiered.SafePages.{registered_page, fresh_page, register-HostSafe, filled-HostSafe}

div-add-mod-le : (a n : ℕ) → n ≢ 0 → a / n + a % n ≤ a
div-add-mod-le a n h = grind arith

module _ {W : Type 0} where
  -- The end of `allocate`, once the page has its chunks.
  settled :
      String
      → Tier
      → Result (Unit {0})
      → Outcome (Unit {0}) × TieredPool W
      → Outcome String × TieredPool W
  settled name tier res r =
      let r1 = then_end (λ _. lift res) r.1 r.0 in
      let r2 =
        then_end (λ _. write_to name (λ p. record p { state = initial_state tier })) r1.1 r1.0 in
      then_end (λ _. pure name) r2.1 r2.0

  settled-HostSafe :
      (name : String) (tier : Tier) (res : Result (Unit {0})) (s : TieredPool W)
      → HostSafe [] s
      → HostSafe [] (settled name tier res (done tt, s)).1
  unfolding settled
  settled-HostSafe name tier res s h =
      (Keeps-Safely (
          then-Keeps
            (then-Keeps (lift-Keeps res) (
              write_to-Keeps name (λ p. record p { state = initial_state tier })
                (λ p. (refl, refl))))
            (pure-Keeps name))).safe
        s h

  allocate_backed-HostSafe :
      (name : String) (p : Page) (total : ℕ) (tier : Tier) (s : TieredPool W)
      → get name s.vmt.pages ≡ some p
      → p.dram_chunks ≡ []
      → total ≤ 2 ^ 63
      → HostSafe [] s
      → HostSafe [] (allocate_backed name total tier s).1
  unfolding allocate_backed settled
  allocate_backed-HostSafe name p total tier s e empty small h =
      elim (Bool-cases (length s.dram_pools == 0)) [
        | inl none_there ↦ rw none_there (
            (Keeps-Safely (
                then-Keeps (write_to-Keeps name (λ x. record x { tier = tier }) (λ x. (refl, refl)))
                  panic-Keeps)).safe
              s h)
        | inr some_there ↦
            let n = length s.dram_pools in
            let r = place (total / n) (total % n) s.dram_pools in
            let s1 : TieredPool W = record s { dram_pools = r.1 } in
            let fill = λ (x : Page). record x { tier = tier; dram_chunks = x.dram_chunks ++ r.2 } in
            let h1 : HostSafe (blocks_of r.2) s1 = record {
              backed =
                  place-Backed (total / n) (total % n) s.dram_pools (blocks (backing s.vmt.pages))
                    h.backed
                    (omega (arith, div-add-mod-le total n (not-==→ne n 0 some_there), small));
              small = h.small;
            } in
            rw some_there (
              subst
                (λ (x : Outcome (Unit {0}) × TieredPool W). HostSafe [] (settled name tier r.0 x).1)
                (sym (write_to_found name fill p s1 e))
                (settled-HostSafe name tier r.0 (record s1 { vmt = update s1.vmt name fill })
                  (filled-HostSafe name p tier r.2 s1 e empty h1)))
      ]

  allocate_cold-HostSafe :
      (name : String) (total : ℕ) (s : TieredPool W)
      → HostSafe [] s
      → HostSafe [] (allocate_cold name total s).1
  unfolding allocate_cold
  allocate_cold-HostSafe name total s h = from s.spill
    where
      cold_page : Result ℕ → Action (TieredPool W) String
      cold_page res = lift res >>= λ offset.
          write_to name (λ p. record p { tier = ssd; state = cold; ssd_offset = some offset })
          >> pure name

      from :
          (o : Option RangeAllocator)
          → HostSafe []
              (elim o as (λ _. Outcome String × TieredPool W) [
                | none ↦
                    raise
                      (unknown_allocation (
                        str_append name
                          ": Tier::Ssd requires a spill file — call TieredPool::attach_spill first"))
                      s
                | some file ↦
                    (lift (Range.allocate file total).0 >>= λ offset.
                    write_to name
                      (λ p. record p { tier = ssd; state = cold; ssd_offset = some offset })
                    >> pure name)
                      (record s { spill = some (Range.allocate file total).1 })
              ]).1
      from none = h
      from (some file) =
          (Keeps-Safely (
              bind-Keeps (lift-Keeps (Range.allocate file total).0) (λ offset.
                then-Keeps
                  (write_to-Keeps name
                    (λ p. record p { tier = ssd; state = cold; ssd_offset = some offset })
                    (λ p. (refl, refl)))
                  (pure-Keeps name)))).safe
            (record s { spill = some (Range.allocate file total).1 })
            (record { backed = h.backed; small = h.small })

  -- A tensor of at most 2 ^ 63 bytes is allocated safely, also where a pool has no room for its share.
  pub allocate-Safely :
      (name : String) (shape : List ℕ) (element_size : ℕ) (tier : Tier)
      → tensor_bytes shape element_size ≤ 2 ^ 63
      → Safely {W = W} (allocate name shape element_size tier)
  unfolding allocate
  allocate-Safely name shape element_size tier small = record {
    safe = λ s h. from tier s (register-HostSafe name shape element_size s h small);
  }
    where
      registered :
          (s : TieredPool W)
          → get
              (Vmt.allocate s.vmt name shape element_size).0
              (Vmt.allocate s.vmt name shape element_size).1.pages
            ≡ some
                (allocated_page (Vmt.allocate s.vmt name shape element_size).0 shape element_size)
      registered s = registered_page s.vmt name shape element_size

      from :
          (t : Tier) (s : TieredPool W)
          → HostSafe [] (record s { vmt = (Vmt.allocate s.vmt name shape element_size).1 })
          → HostSafe []
              (elim t as (λ _. Outcome String × TieredPool W) [
                | ssd ↦
                    allocate_cold
                      (Vmt.allocate s.vmt name shape element_size).0
                      (tensor_bytes shape element_size)
                      (record s { vmt = (Vmt.allocate s.vmt name shape element_size).1 })
                | vram ↦
                    allocate_backed
                      (Vmt.allocate s.vmt name shape element_size).0
                      (tensor_bytes shape element_size)
                      vram
                      (record s { vmt = (Vmt.allocate s.vmt name shape element_size).1 })
                | dram ↦
                    allocate_backed
                      (Vmt.allocate s.vmt name shape element_size).0
                      (tensor_bytes shape element_size)
                      dram
                      (record s { vmt = (Vmt.allocate s.vmt name shape element_size).1 })
              ]).1
      from ssd s h =
          allocate_cold-HostSafe _ (tensor_bytes shape element_size)
            (record s { vmt = (Vmt.allocate s.vmt name shape element_size).1 }) h
      from vram s h =
          allocate_backed-HostSafe _ _ (tensor_bytes shape element_size) vram
            (record s { vmt = (Vmt.allocate s.vmt name shape element_size).1 }) (registered s)
            (fresh_page _ shape element_size) small h
      from dram s h =
          allocate_backed-HostSafe _ _ (tensor_bytes shape element_size) dram
            (record s { vmt = (Vmt.allocate s.vmt name shape element_size).1 }) (registered s)
            (fresh_page _ shape element_size) small h
