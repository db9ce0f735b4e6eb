-- ===== src/Tiered/Eviction.antt =====
-- What the evicting half of a membrane sweep does to the table, however it ends.
use Prim.Native.String.{String}
use vugva.Common.{
  ◌≡◌, refl, sym, ap, ◌∙◌, subst, inl, inr, true, false, Option, none, some, List, [], ◌∷◌,
  if◌then◌else◌, Bool-cases,
}
use vugva.Vmt.{Tier, vram, dram, ssd, Page, VirtualMemoryTable, get}
use vugva.Action.{Outcome, done, failed, panicked, Action, pure, then_end}
use vugva.Action.Ends.{Ends}
use vugva.Driver.{Driver}
use vugva.Tiered.State.{TieredPool}
use vugva.Tiered.Demote.{demoted, demote, demote_resident}
use vugva.Tiered.Frame.{page_of_found}
use vugva.Tiered.Demotion.{Demoted, demote-Demoted}
use vugva.Tiered.Sweep.{SweptPool, is_in_vram, on_pool, resident_or, evict_one, evict_all}
use vugva.Tiered.Became.{
  Settled, AllSettled, Became-trans, Settled-Became, Evicted, get-demoted_self, update-Became,
  in_vram,
}

module _ {W : Type 0} (cuda : Driver W) where
  demote-pinned :
      (name : String) (page : Page) (s : TieredPool W)
      → get name s.vmt.pages ≡ some page
      → page.pinned ≡ true
      → demote cuda name s ≡ (done tt, s)
  unfolding demote
  demote-pinned name page s h pinned =
      let go = λ (p : Page). elim p.tier as (λ _. Action (TieredPool W) (Unit {0})) [
        | vram ↦ if p.pinned then pure tt else demote_resident cuda name p
        | dram ↦ pure tt
        | ssd ↦ pure tt
      ] in
      ap (λ (o : Outcome Page × TieredPool W). then_end go o.1 o.0) (page_of_found name page s h)
      ∙ stays page.tier
    where
      stays :
          (x : Tier)
          → elim x as (λ _. Action (TieredPool W) (Unit {0})) [
            | vram ↦ if page.pinned then pure tt else demote_resident cuda name page
            | dram ↦ pure tt
            | ssd ↦ pure tt
          ]
              s
            ≡ (done tt, s)
      stays vram = rw pinned refl
      stays dram = refl
      stays ssd = refl

module _ {F W : Type 0} (cuda : Driver W) (name i : String) (s : SweptPool F W) where
  Demoted-Evicted :
      (p : Page) (r : Outcome (Unit {0}) × TieredPool W)
      → get name s.pool.vmt.pages ≡ some p
      → p.tier ≡ vram
      → p.pinned ≡ false
      → Demoted name s.pool.vmt r
      → Evicted (name ∷ []) i s.pool.vmt (r.0, record s { pool = r.1 })
  unfolding demoted is_in_vram
  Demoted-Evicted p (done _, q) h hot free e = (
    update-Became s.pool.vmt q.vmt name i p h hot free e,
    (subst Settled (sym (get-demoted_self s.pool.vmt q.vmt name p h e)) (inl refl), tt),
  )
  Demoted-Evicted p (failed _, q) h hot free e =
      (inl (ap (λ (v : VirtualMemoryTable). get i v.pages) e), tt)
  Demoted-Evicted p (panicked, q) h hot free e =
      (inl (ap (λ (v : VirtualMemoryTable). get i v.pages) e), tt)

  -- The page of a name that is in VRAM.
  resident-Evicted :
      (p : Page)
      → get name s.pool.vmt.pages ≡ some p
      → is_in_vram p.tier ≡ true
      → Evicted (name ∷ []) i s.pool.vmt (on_pool (demote cuda name) s)
  resident-Evicted p h hot = elim (Bool-cases p.pinned) [
    | inl pinned ↦
        subst
          (λ (r : Outcome (Unit {0}) × TieredPool W).
            Evicted (name ∷ []) i s.pool.vmt (r.0, record s { pool = r.1 }))
          (sym (demote-pinned cuda name p s.pool h pinned))
          (inl refl, (subst Settled (sym h) (inr pinned), tt))
    | inr free ↦
        let eq : p.tier ≡ vram = in_vram p.tier hot in
        Demoted-Evicted p (demote cuda name s.pool) h eq free
          (demote-Demoted cuda name p s.pool h eq free)
  ]

module _ {F W : Type 0} (cuda : Driver W) where
  evict_one-Evicted :
      (name i : String) (s : SweptPool F W)
      → Evicted (name ∷ []) i s.pool.vmt (evict_one cuda name s)
  evict_one-Evicted name i s = looked_up (get name s.pool.vmt.pages) refl
    where
      looked_up :
          (o : Option Page)
          → get name s.pool.vmt.pages ≡ o
          → Evicted
              (name ∷ [])
              i
              s.pool.vmt
              ((if resident_or o false then on_pool (demote cuda name) else pure tt) s)
      looked_up none h = (inl refl, (subst Settled (sym h) tt, tt))
      looked_up (some p) h = elim (Bool-cases (is_in_vram p.tier)) [
        | inl hot ↦ rw hot (resident-Evicted cuda name i s p h hot)
        | inr cold ↦ rw cold (inl refl, (subst Settled (sym h) (inl cold), tt))
      ]

  both-Settled :
      (name : String) (names : List String) (t : VirtualMemoryTable)
      (r : Outcome (Unit {0}) × SweptPool F W)
      → Settled (get name t.pages)
      → Evicted names name t r
      → Ends (λ _. AllSettled (name ∷ names) r.1.pool.vmt) r
  both-Settled name names t (done _, s2) settled (became, all) = (
    Settled-Became names name (get name t.pages) (get name s2.pool.vmt.pages) settled became,
    all,
  )
  both-Settled name names t (failed _, s2) settled (became, all) = tt
  both-Settled name names t (panicked, s2) settled (became, all) = tt

  then-Evicted :
      (name : String) (names : List String) (i : String) (s : SweptPool F W)
      (r : Outcome (Unit {0}) × SweptPool F W)
      → Evicted (name ∷ []) i s.pool.vmt r
      → ((j : String) (t : SweptPool F W) → Evicted names j t.pool.vmt (evict_all cuda names t))
      → Evicted (name ∷ names) i s.pool.vmt (then_end (λ _. evict_all cuda names) r.1 r.0)
  then-Evicted name names i s (done _, s1) (became, settled) later =
      let rest = evict_all cuda names s1 in
      (
        Became-trans name names i (get i s.pool.vmt.pages) (get i s1.pool.vmt.pages)
            (get i rest.1.pool.vmt.pages) became (later i s1).0,
        both-Settled name names s1.pool.vmt rest settled.0 (later name s1),
      )
  then-Evicted name names i s (failed _, s1) (became, _) later = (
    Became-trans name names i (get i s.pool.vmt.pages) (get i s1.pool.vmt.pages)
        (get i s1.pool.vmt.pages) became (inl refl),
    tt,
  )
  then-Evicted name names i s (panicked, s1) (became, _) later = (
    Became-trans name names i (get i s.pool.vmt.pages) (get i s1.pool.vmt.pages)
        (get i s1.pool.vmt.pages) became (inl refl),
    tt,
  )

  -- The table after the evictions of a sweep, however they end: every page is as it was, except pages of the list
  -- that were in VRAM and not pinned, which are demoted. If all went through, no unpinned page of the list is
  -- left in VRAM.
  pub evict_all-Evicted :
      (names : List String) (i : String) (s : SweptPool F W)
      → Evicted names i s.pool.vmt (evict_all cuda names s)
  unfolding evict_all
  evict_all-Evicted [] i s = (inl refl, tt)
  evict_all-Evicted (name ∷ names) i s =
      then-Evicted name names i s (evict_one cuda name s) (evict_one-Evicted name i s)
        (evict_all-Evicted names)
