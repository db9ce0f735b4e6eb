-- ===== src/Vmt/States.antt =====
-- The page's state machine: what a run of `transition` calls can reach.
use vugva.Common.{
  ℕ, ◌+◌, ◌-◌, ◌<◌, ◌≤◌, ◌^◌, ◌≡◌, ◌≢◌, refl, sym, subst, ◌⊎◌, inl, inr, Bool, true, false, not,
  ◌&&◌, List, [], ◌∷◌, Bool-cases, arith, le→not-ltb, lt→ltb, leb→le, le→leb, add_word-eq,
}
use vugva.Error.{PageState, unmapped, allocated, resident, warm, cold}
use vugva.Vmt.{Page, is_edge, transition, touch, is_idle, is_hot}

-- The states of a page that one of the three tiers holds.
abbrev pub Placed : PageState → Type 0
Placed unmapped = ⊥
Placed allocated = ⊥
Placed _ = Unit {0}

-- The diagram of the page table: a page is mapped once, promoted once, and from there on moves
-- between any two of the three tiers.
pub data Edge : PageState → PageState → Type 0 where
  map_page : Edge unmapped allocated
  first_use : Edge allocated resident
  move : (s t : PageState) → Placed s → Placed t → s ≢ t → Edge s t

-- A page's state after a list of requests, some of which may be refused.
unfoldable pub run : Page → List PageState → Page
run p [] = p
run p (s ∷ ss) = run (transition p s).1 ss

diagram_sound : (s t : PageState) → is_edge s t ≡ true → Edge s t
unfolding is_edge
diagram_sound unmapped unmapped e = cc e
diagram_sound unmapped allocated e = map_page
diagram_sound unmapped resident e = cc e
diagram_sound unmapped warm e = cc e
diagram_sound unmapped cold e = cc e
diagram_sound allocated unmapped e = cc e
diagram_sound allocated allocated e = cc e
diagram_sound allocated resident e = first_use
diagram_sound allocated warm e = cc e
diagram_sound allocated cold e = cc e
diagram_sound resident unmapped e = cc e
diagram_sound resident allocated e = cc e
diagram_sound resident resident e = cc e
diagram_sound resident warm e = move resident warm tt tt (λ e. cc e)
diagram_sound resident cold e = move resident cold tt tt (λ e. cc e)
diagram_sound warm unmapped e = cc e
diagram_sound warm allocated e = cc e
diagram_sound warm resident e = move warm resident tt tt (λ e. cc e)
diagram_sound warm warm e = cc e
diagram_sound warm cold e = move warm cold tt tt (λ e. cc e)
diagram_sound cold unmapped e = cc e
diagram_sound cold allocated e = cc e
diagram_sound cold resident e = move cold resident tt tt (λ e. cc e)
diagram_sound cold warm e = move cold warm tt tt (λ e. cc e)
diagram_sound cold cold e = cc e

state-transition :
    (p : Page) (s : PageState)
    → let t = (transition p s).1.state in (Edge p.state s × (t ≡ s)) ⊎ (t ≡ p.state)
unfolding transition
state-transition p s = elim (Bool-cases (is_edge p.state s)) [
  | inl e ↦ inl (diagram_sound p.state s e, rw e refl)
  | inr e ↦ inr (rw e refl)
]

Edge-Placed : (s t : PageState) → Edge s t → Placed s → Placed t
Edge-Placed _ _ map_page x = absurd x
Edge-Placed _ _ first_use x = tt
Edge-Placed s t (move _ _ x y ne) _ = y

-- Once a tier holds a page, no list of requests takes it back to being unmapped or only allocated.
pub run-Placed : (p : Page) (ss : List PageState) → Placed p.state → Placed (run p ss).state
unfolding run
run-Placed p [] x = x
run-Placed p (s ∷ ss) x = run-Placed (transition p s).1 ss (elim (state-transition p s) [
  | inl (e, eq) ↦ subst Placed (sym eq) (Edge-Placed p.state s e x)
  | inr eq ↦ subst Placed (sym eq) x
])

abbrev Asked : PageState → List PageState → Type 0
Asked s [] = ⊥
Asked s (r ∷ rs) = (r ≡ s) ⊎ Asked s rs

Edge-Asked : (s t : PageState) → Edge s t → (Placed s → ⊥) → (t ≡ resident) ⊎ (Placed t → ⊥)
Edge-Asked _ _ map_page unheld = inr (λ x. x)
Edge-Asked _ _ first_use unheld = inl refl
Edge-Asked s t (move _ _ x y ne) unheld = absurd (unheld x)

-- A page that no tier holds comes to be held only by requests of which one is for VRAM residence.
run-first_use :
    (p : Page) (ss : List PageState)
    → (Placed p.state → ⊥)
    → Placed (run p ss).state
    → Asked resident ss
unfolding run
run-first_use p [] unheld held = unheld held
run-first_use p (s ∷ ss) unheld held = elim (state-transition p s) [
  | inl (e, eq) ↦ elim (Edge-Asked p.state s e unheld) [
    | inl r ↦ inl r
    | inr unheld' ↦
        inr (run-first_use (transition p s).1 ss (λ x. unheld' (subst Placed eq x)) held)
  ]
  | inr eq ↦ inr (run-first_use (transition p s).1 ss (λ x. unheld (subst Placed eq x)) held)
]

and-false : (b : Bool) → (b && false) ≡ false
and-false true = refl
and-false false = refl

and-true : (b : Bool) → (b && true) ≡ b
and-true true = refl
and-true false = refl

-- After a touch a page stays busy for the whole threshold, then goes idle unless it is pinned, and
-- it is hot if it was hot before; a pinned page is never idle.
pub touch-delays :
    (p : Page) (now_ns later_ns idle_threshold_ns access_threshold : ℕ)
    → p.access_count + 1 < 2 ^ 64
    → let q = touch p now_ns in
      (later_ns ≤ now_ns + idle_threshold_ns → is_idle q later_ns idle_threshold_ns ≡ false)
      × (now_ns + idle_threshold_ns < later_ns
          → is_idle q later_ns idle_threshold_ns ≡ not p.pinned)
      × (p.pinned ≡ true → is_idle q later_ns idle_threshold_ns ≡ false)
      × (is_hot p access_threshold ≡ true → is_hot q access_threshold ≡ true)
unfolding touch is_idle is_hot
touch-delays p now later thr k w = (
  λ h. rw (le→not-ltb thr (later - now) (omega arith)) (and-false (not p.pinned)),
  λ h. rw (lt→ltb thr (later - now) (omega arith)) (and-true (not p.pinned)),
  λ h. rw h refl,
  λ h. le→leb k _ (omega (arith, leb→le k p.access_count h, add_word-eq p.access_count 1 w)),
)
