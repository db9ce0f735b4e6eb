-- ===== src/Tiered/Answered.antt =====
-- What `TieredPool::access` answers, and which pages it touches.
use Prim.Native.String.{String}
use vugva.Common.{
  ℕ, ◌≡◌, ◌≢◌, refl, ◌==◌, not, Bool, true, false, Option, none, some, get_elem?, if◌then◌else◌,
}
use vugva.Error.{unknown_allocation}
use vugva.Membrane.{observe}
use vugva.Vmt.{Page, get, touch}
use vugva.Action
use vugva.Action.{
  Outcome, done, failed, panicked, Action, pure, raise, or_raise, or_panic, lift, modify, attempt,
  ignore, then_end, ◌>>=◌, ◌>>◌,
}
use vugva.Action.Ends.{Leaves, then_end-Leaves}
use vugva.Driver.{Driver}
use vugva.Tiered.State.{Inflight, TieredPool, page_of, handle, find_inflight, drop_inflight}
use vugva.Tiered.Vram.{free_vram_on_gpu}
use vugva.Tiered.Prefetch.{land_prefetch, claim_prefetch}
use vugva.Tiered.Promote.{access_page, access}
use vugva.Tiered.Confined.{
  Confined, bind-Confined, then-Confined, ignore-Confined, pure-Confined, gets-Confined,
  within-Confined, or_raise-Confined, handle-Confined, known_page-Confined, free_vram-Confined,
}
use vugva.Tiered.Resident.{Resident, Promotes, bind-Promotes, pushed-Promotes}
use vugva.Tiered.Accessed.{access_page-Leaves, access_page-Confined}

module _ {W : Type 0} (cuda : Driver W) (name : String) (gpu_idx : ℕ) where
  land_prefetch-Promotes :
      (now : ℕ) (f : Inflight) → Promotes name gpu_idx (land_prefetch cuda name gpu_idx now f)
  unfolding land_prefetch touch
  land_prefetch-Promotes now f =
      bind-Promotes
        (then-Confined
          (within-Confined (Action.call "cuEventSynchronize" (cuda.synchronize_event f.event)))
          (known_page-Confined name))
        (λ page.
          pushed-Promotes name gpu_idx page f.device_ptr f.size (λ p. touch p now)
            (λ p. (refl, refl)))

  -- What is known of a claim.
  abbrev Claim : Option ℕ → TieredPool W → Type 0
  Claim none t = Unit {0}
  Claim (some ptr) t = Resident name gpu_idx ptr t

  abbrev claimed_ptr : ℕ → Action (TieredPool W) (Option ℕ)
  claimed_ptr ptr = pure (some ptr)

  landed :
      (r : Outcome ℕ × TieredPool W)
      → Leaves (Resident name gpu_idx) r
      → Leaves Claim (then_end claimed_ptr r.1 r.0)
  landed (done ptr, t) h = h
  landed (failed e, t) h = tt
  landed (panicked, t) h = tt

  given_back :
      (f : Inflight)
      → Confined name {W = W} {A = Option ℕ}
          (ignore (free_vram_on_gpu f.gpu_idx f.device_ptr f.size) >> pure none)
  given_back f =
      then-Confined (ignore-Confined (free_vram-Confined f.gpu_idx f.device_ptr f.size))
        (pure-Confined none)

  not_claimed :
      (r : Outcome (Unit {0}) × TieredPool W) → Leaves Claim (then_end (λ _. pure none) r.1 r.0)
  not_claimed (done a, t) = tt
  not_claimed (failed e, t) = tt
  not_claimed (panicked, t) = tt

  abbrev claim_of : ℕ → TieredPool W → Option Inflight → Bool → Outcome (Option ℕ) × TieredPool W
  claim_of now s none b = (done none, s)
  claim_of now s (some f) b =
      let s' = record s { inflight = drop_inflight name s.inflight } in
      if b
      then (ignore (free_vram_on_gpu f.gpu_idx f.device_ptr f.size) >> pure none) s'
      else (land_prefetch cuda name gpu_idx now f >>= claimed_ptr) s'

  claim_of-Leaves :
      (now : ℕ) (s : TieredPool W) (o : Option Inflight) (b : Bool)
      → Leaves Claim (claim_of now s o b)
  claim_of-Leaves now s none b = tt
  claim_of-Leaves now s (some f) true =
      let s' = record s { inflight = drop_inflight name s.inflight } in
      not_claimed (ignore (free_vram_on_gpu f.gpu_idx f.device_ptr f.size) s')
  claim_of-Leaves now s (some f) false =
      let s' = record s { inflight = drop_inflight name s.inflight } in
      landed (land_prefetch cuda name gpu_idx now f s') ((land_prefetch-Promotes now f).promotes s')

  claim_of-Confined :
      (now : ℕ) (s : TieredPool W) (o : Option Inflight) (b : Bool) (i : String)
      → name ≢ i
      → get i (claim_of now s o b).1.vmt.pages ≡ get i s.vmt.pages
  claim_of-Confined now s none b i ne = refl
  claim_of-Confined now s (some f) true i ne =
      (given_back f).elsewhere (record s { inflight = drop_inflight name s.inflight }) i ne
  claim_of-Confined now s (some f) false i ne =
      let land : Confined name (land_prefetch cuda name gpu_idx now f >>= claimed_ptr) =
        bind-Confined (land_prefetch-Promotes now f).confined (λ ptr. pure-Confined (some ptr)) in
      land.elsewhere (record s { inflight = drop_inflight name s.inflight }) i ne

  claim_prefetch-Leaves :
      (now : ℕ) (s : TieredPool W) → Leaves Claim (claim_prefetch cuda name gpu_idx now s)
  unfolding claim_prefetch
  claim_prefetch-Leaves now s = from (find_inflight name s.inflight)
    where
      from :
          (o : Option Inflight)
          → Leaves Claim (elim o as (λ _. Outcome (Option ℕ) × TieredPool W) [
            | none ↦ (done none, s)
            | some f ↦ claim_of now s (some f) (not (f.gpu_idx == gpu_idx))
          ])
      from none = tt
      from (some f) = claim_of-Leaves now s (some f) (not (f.gpu_idx == gpu_idx))

  claim_prefetch-Confined : (now : ℕ) → Confined name (claim_prefetch cuda name gpu_idx now)
  unfolding claim_prefetch
  claim_prefetch-Confined now = record {
    elsewhere = λ s i ne. from s i ne (find_inflight name s.inflight);
  }
    where
      from :
          (s : TieredPool W) (i : String)
          → name ≢ i
          → (o : Option Inflight)
          → get i
              (elim o as (λ _. Outcome (Option ℕ) × TieredPool W) [
                | none ↦ (done none, s)
                | some f ↦ claim_of now s (some f) (not (f.gpu_idx == gpu_idx))
              ]).1.vmt.pages
            ≡ get i s.vmt.pages
      from s i ne none = refl
      from s i ne (some f) = claim_of-Confined now s (some f) (not (f.gpu_idx == gpu_idx)) i ne

  -- What follows the claim.
  abbrev found_page : ℕ → Action (TieredPool W) ℕ
  found_page now = page_of name >>= λ page.
      handle (λ s. s.ordinals) gpu_idx >>= λ ordinal. access_page cuda name gpu_idx now page ordinal

  abbrev after_claim : ℕ → Option ℕ → Action (TieredPool W) ℕ
  after_claim now claimed = elim claimed [ some ptr ↦ pure ptr | none ↦ found_page now ]

  found_page-Leaves :
      (now : ℕ) (t : TieredPool W) → Leaves (Resident name gpu_idx) (found_page now t)
  found_page-Leaves now t = from (get name t.vmt.pages) refl
    where
      indexed :
          (page : Page)
          → get name t.vmt.pages ≡ some page
          → (k : Option ℕ) → get_elem? t.ordinals gpu_idx ≡ k
          → (let q = or_panic k t in
              Leaves
                (Resident name gpu_idx)
                (then_end (λ ordinal. access_page cuda name gpu_idx now page ordinal) q.1 q.0))
      indexed page e none f = tt
      indexed page e (some ordinal) f = access_page-Leaves cuda name gpu_idx now ordinal page t e f

      from :
          (o : Option Page)
          → get name t.vmt.pages ≡ o
          → (let r = or_raise o (unknown_allocation name) t in
              Leaves (Resident name gpu_idx) (
                then_end
                  (λ page. handle (λ s. s.ordinals) gpu_idx >>= λ ordinal.
                    access_page cuda name gpu_idx now page ordinal)
                  r.1
                  r.0))
      from none e = tt
      from (some page) e = indexed page e (get_elem? t.ordinals gpu_idx) refl

  after_claim-Leaves :
      (now : ℕ) (o : Option ℕ) (t : TieredPool W)
      → Claim o t
      → Leaves (Resident name gpu_idx) (after_claim now o t)
  after_claim-Leaves now none t h = found_page-Leaves now t
  after_claim-Leaves now (some ptr) t h = h

  after_claim-Confined : (now : ℕ) (o : Option ℕ) → Confined name (after_claim now o)
  after_claim-Confined now none =
      bind-Confined
        (bind-Confined (gets-Confined (λ s. get name s.vmt.pages))
          (λ o. or_raise-Confined o (unknown_allocation name)))
        (λ page.
          bind-Confined (handle-Confined (λ s. s.ordinals) gpu_idx)
            (λ ordinal. access_page-Confined cuda name gpu_idx now ordinal page))
  after_claim-Confined now (some ptr) = pure-Confined ptr

  access-Confined : Confined name (access cuda name gpu_idx)
  unfolding access
  access-Confined = bind-Confined (within-Confined (Action.ask cuda.now_ns)) (λ now.
      bind-Confined (then-Confined observed-Confined (claim_prefetch-Confined now))
        (after_claim-Confined now))
    where
      observed-Confined :
          Confined name {W = W}
            (modify (λ s. record s { membrane_hits = observe name s.membrane_hits }))
      observed-Confined = record { elsewhere = λ s i ne. refl }

  -- An address that `access` answers is that of a chunk of the page on the GPU asked for, in a table where the page
  -- is in VRAM: from whichever tier it came, from another GPU or from a prefetch. However the call ends, the pages of
  -- all other names are as they were.
  pub access-Resident :
      (s : TieredPool W) (i : String)
      → name ≢ i
      → Leaves (Resident name gpu_idx) (access cuda name gpu_idx s)
        × (get i (access cuda name gpu_idx s).1.vmt.pages ≡ get i s.vmt.pages)
  unfolding access
  access-Resident s i ne =
      let now = (cuda.now_ns s.world).0 in
      let s1 : TieredPool W = record s {
        membrane_hits = observe name s.membrane_hits;
        world = (cuda.now_ns s.world).1;
      } in
      (
        then_end-Leaves Claim (Resident name gpu_idx) (claim_prefetch cuda name gpu_idx now s1)
            (after_claim now) (claim_prefetch-Leaves now s1) (after_claim-Leaves now),
        access-Confined.elsewhere s i ne,
      )
