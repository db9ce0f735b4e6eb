-- ===== src/Membrane/Plan.antt =====
-- What a plan keeps and evicts.
use Prim.Native.String.{String}
use mathlib.Core.List.{Permᴰ}
use mathlib.Core.List.Permᴰ as Permutation
use vugva.Common.{
  ℕ, ◌+◌, ◌^◌, ◌≤◌, ◌<◌, ◌≡◌, refl, sym, ap, ◌∙◌, subst, false, ◌||◌, inl, inr, List, [], ◌∷◌, ◌++◌,
  if◌then◌else◌, leb, add_word, add_word-eq, arith, Bool-cases, leb→le, not-leb→lt,
}
use vugva.Membrane.{
  Float, PageObs, TierPolicy, Ranked, ranked, at_most, insert_ranked, sort_ranked, fill, limit_of,
  plan,
}

module _ {F : Type 0} where
  abbrev pub names : List (String × PageObs F) → List String
  names [] = []
  names ((name, obs) ∷ ps) = name ∷ names ps

  -- The bytes of pages, and of those that are pinned.
  abbrev pub total : List (String × PageObs F) → ℕ
  total [] = 0
  total ((name, obs) ∷ ps) = obs.bytes + total ps

  abbrev pub pinned_total : List (String × PageObs F) → ℕ
  pinned_total [] = 0
  pinned_total ((name, obs) ∷ ps) = (if obs.pinned then obs.bytes else 0) + pinned_total ps

  -- Pages that are not pinned, and of which none fits under `limit` beside `used` bytes.
  abbrev pub Unfit : ℕ → ℕ → List (String × PageObs F) → Type 0
  Unfit limit used [] = Unit {0}
  Unfit limit used ((name, obs) ∷ ps) =
      (obs.pinned ≡ false) × (limit < used + obs.bytes) × Unfit limit used ps

  Unfit-le :
      (limit used more : ℕ) (ps : List (String × PageObs F))
      → used ≤ more
      → Unfit limit used ps
      → Unfit limit more ps
  Unfit-le limit used more [] h u = tt
  Unfit-le limit used more ((name, obs) ∷ ps) h (p, q, u) =
      (p, omega (arith, q, h), Unfit-le limit used more ps h u)

  -- A split of pages into kept and evicted ones, after `used` bytes, of which all but `over` are below `limit`.
  pub record Split (limit used over : ℕ) (pages : List (String × PageObs F))
      (r : List String × List String) : Type 0 where
    pub kept : List (String × PageObs F)
    pub evicted : List (String × PageObs F)
    pub keep_names : r.0 ≡ names kept
    pub evict_names : r.1 ≡ names evicted
    pub all_pages : Permᴰ (kept ++ evicted) pages
    pub unfit : Unfit limit (used + total kept) evicted
    pub bounded : used + total kept ≤ limit + over + pinned_total kept

  -- One page more, kept or evicted.
  keep-Split :
      (limit used over : ℕ) (name : String) (obs : PageObs F) (ps : List (String × PageObs F))
      (r : List String × List String)
      → Split limit (used + obs.bytes) (over + (if obs.pinned then obs.bytes else 0)) ps r
      → Split limit used over ((name, obs) ∷ ps) (name ∷ r.0, r.1)
  keep-Split limit used over name obs ps r s = record {
    kept = (name, obs) ∷ s.kept;
    evicted = s.evicted;
    keep_names = ap (λ t. name ∷ t) s.keep_names;
    evict_names = s.evict_names;
    all_pages = Permᴰ.cons refl s.all_pages;
    unfit = Unfit-le limit _ _ s.evicted (omega arith) s.unfit;
    bounded = omega (arith, s.bounded);
  }

  evict-Split :
      (limit used over : ℕ) (name : String) (obs : PageObs F) (ps : List (String × PageObs F))
      (r : List String × List String)
      → obs.pinned ≡ false
      → limit < used + obs.bytes
      → Split limit used over ps r
      → Split limit used over ((name, obs) ∷ ps) (r.0, name ∷ r.1)
  evict-Split limit used over name obs ps r free large s = record {
    kept = s.kept;
    evicted = (name, obs) ∷ s.evicted;
    keep_names = s.keep_names;
    evict_names = ap (λ t. name ∷ t) s.evict_names;
    all_pages =
        Permᴰ.trans (Permutation.middle (name, obs) s.kept s.evicted) (Permᴰ.cons refl s.all_pages);
    unfit = (free, omega (arith, large), s.unfit);
    bounded = s.bounded;
  }

  total-Perm : {ps qs : List (String × PageObs F)} → Permᴰ ps qs → total ps ≡ total qs
  total-Perm Permᴰ.nil = refl
  total-Perm (Permᴰ.cons e d) = omega (arith, ap (λ x. x.1.bytes) e, total-Perm d)
  total-Perm (Permᴰ.swap e f) = omega (arith, ap (λ x. x.1.bytes) e, ap (λ x. x.1.bytes) f)
  total-Perm (Permᴰ.trans d e) = total-Perm d ∙ total-Perm e

module _ {F : Type 0} (float : Float F) where
  abbrev pages : List (Ranked float) → List (String × PageObs F)
  pages [] = []
  pages ((s, p) ∷ rs) = p ∷ pages rs

  fill-Split :
      (limit used over : ℕ) (rs : List (Ranked float))
      → used + total (pages rs) < 2 ^ 64
      → used ≤ limit + over
      → Split limit used over (pages rs) (fill float limit used rs)
  unfolding fill
  fill-Split limit used over [] h k = record {
    kept = [];
    evicted = [];
    keep_names = refl;
    evict_names = refl;
    all_pages = Permᴰ.nil;
    unfit = tt;
    bounded = omega (arith, k);
  }
  fill-Split limit used over ((s, (name, obs)) ∷ rs) h k =
      choose (add_word used obs.bytes) (add_word-eq used obs.bytes (omega (arith, h)))
        (λ u small q. fill-Split limit u (over + (if obs.pinned then obs.bytes else 0)) rs small q)
        (fill-Split limit used over rs (omega (arith, h)) k)
    where
      choose :
          (u : ℕ)
          → u ≡ used + obs.bytes
          → ((v : ℕ)
              → v + total (pages rs) < 2 ^ 64
              → v ≤ limit + (over + (if obs.pinned then obs.bytes else 0))
              → Split limit v
                  (over + (if obs.pinned then obs.bytes else 0))
                  (pages rs)
                  (fill float limit v rs))
          → Split limit used over (pages rs) (fill float limit used rs)
          → Split limit used over ((name, obs) ∷ pages rs) (
              if obs.pinned || leb u limit
              then (name ∷ (fill float limit u rs).0, (fill float limit u rs).1)
              else ((fill float limit used rs).0, name ∷ (fill float limit used rs).1))
      choose u e kept evicted =
          subst
            (λ v. Split limit used over ((name, obs) ∷ pages rs) (
              if obs.pinned || leb v limit
              then (name ∷ (fill float limit v rs).0, (fill float limit v rs).1)
              else ((fill float limit used rs).0, name ∷ (fill float limit used rs).1)))
            (sym e)
            (elim (Bool-cases obs.pinned) [
              | inl p ↦ simp p (
                  keep-Split limit used over name obs (pages rs) _ (
                    kept (used + obs.bytes) (omega (arith, h))
                      (omega (arith, k, ap (λ b. if b then obs.bytes else 0) p))))
              | inr p ↦ elim (Bool-cases (leb (used + obs.bytes) limit)) [
                | inl q ↦
                    simp (p, q)
                      (keep-Split limit used over name obs (pages rs) _ (
                        kept (used + obs.bytes) (omega (arith, h))
                          (omega (arith, leb→le (used + obs.bytes) limit q))))
                | inr q ↦
                    simp (p, q)
                      (evict-Split limit used over name obs (pages rs) _ p
                        (not-leb→lt (used + obs.bytes) limit q) evicted)
              ]
            ])

  insert_ranked-Perm :
      (r : Ranked float) (rs : List (Ranked float))
      → Permᴰ (pages (insert_ranked float r rs)) (pages (r ∷ rs))
  unfolding insert_ranked
  insert_ranked-Perm r [] = Permutation.refl _
  insert_ranked-Perm r (s ∷ ss) = elim (Bool-cases (at_most float r s)) [
    | inl e ↦ rw e (Permutation.refl _)
    | inr e ↦ rw e (Permᴰ.trans (Permᴰ.cons refl (insert_ranked-Perm r ss)) (Permᴰ.swap refl refl))
  ]

  sort_ranked-Perm : (rs : List (Ranked float)) → Permᴰ (pages (sort_ranked float rs)) (pages rs)
  unfolding sort_ranked
  sort_ranked-Perm [] = Permᴰ.nil
  sort_ranked-Perm (r ∷ rs) =
      Permᴰ.trans (insert_ranked-Perm r (sort_ranked float rs))
        (Permᴰ.cons refl (sort_ranked-Perm rs))

  pages-ranked :
      (p : TierPolicy F) (candidates : List (String × PageObs F))
      → pages (ranked float p candidates) ≡ candidates
  unfolding ranked
  pages-ranked p [] = refl
  pages-ranked p (c ∷ candidates) = ap (λ t. c ∷ t) (pages-ranked p candidates)

  sorted-Perm :
      (p : TierPolicy F) (candidates : List (String × PageObs F))
      → Permᴰ (pages (sort_ranked float (ranked float p candidates))) candidates
  sorted-Perm p candidates =
      subst (Permᴰ (pages (sort_ranked float (ranked float p candidates))))
        (pages-ranked p candidates) (sort_ranked-Perm (ranked float p candidates))

  -- A plan splits the candidates: pages that are kept, which take no more than the budget's high-water mark and what
  -- the pinned ones take, and pages that are evicted, none of them pinned, each too large for what the kept ones
  -- leave of the mark: a page that does not fit is passed over, so the kept ones need not be a prefix of the ranking.
  -- The bytes of all candidates together are a 64-bit number.
  pub plan-Split :
      (p : TierPolicy F) (candidates : List (String × PageObs F)) (vram_budget : ℕ)
      → total candidates < 2 ^ 64
      → Split (limit_of float vram_budget) 0 0 candidates (plan float p candidates vram_budget)
  unfolding plan
  plan-Split p candidates vram_budget h =
      let rs = sort_ranked float (ranked float p candidates) in
      let s =
        fill-Split (limit_of float vram_budget) 0 0 rs
          (omega (arith, h, total-Perm (sorted-Perm p candidates))) (omega arith) in
      record {
        kept = s.kept;
        evicted = s.evicted;
        keep_names = s.keep_names;
        evict_names = s.evict_names;
        all_pages = Permᴰ.trans s.all_pages (sorted-Perm p candidates);
        unfit = s.unfit;
        bounded = s.bounded;
      }
