-- ===== src/Tiered/Became.antt =====
-- What the page of a name becomes in the evictions of a sweep.
use Prim.Native.String.{String}
use text.Mathlib.Text.{◌==◌ as str_eq}
use text.Mathlib.TextEquality.{eq_iff}
use mathlib.Core.Option.{some-injective}
use mathlib.Core.List.{Memᴰ}
use mathlib.Core.List.Memᴰ as Member
use vugva.Common.{
  ◌≡◌, ◌≢◌, refl, sym, ap, ◌∙◌, subst, ◌⊎◌, inl, inr, true, false, Option, none, some, List, [],
  ◌∷◌, Bool-cases,
}
use vugva.Vmt.{Tier, vram, dram, ssd, Page, VirtualMemoryTable, get, update}
use vugva.Vmt.Table.{get-put_self, get-put_ne, update_present, not-str_eq→ne}
use vugva.Action.{Outcome}
use vugva.Action.Ends.{Ends}
use vugva.Tiered.Demote.{demoted}
use vugva.Tiered.Sweep.{SweptPool, is_in_vram}

-- What the page of a name has become: it is as it was, or it is one of the listed pages, was in VRAM and not pinned,
-- and is demoted.
abbrev pub Became : List String → String → Option Page → Option Page → Type 0
Became names i o o' =
    (o' ≡ o)
    ⊎ ((p : Page) × (o ≡ some p)
        × (p.tier ≡ vram)
        × (p.pinned ≡ false)
        × Memᴰ i names
        × (o' ≡ some (demoted p)))

-- There is no such page, or it is not in VRAM, or it is pinned.
abbrev pub Settled : Option Page → Type 0
Settled none = Unit {0}
Settled (some p) = (is_in_vram p.tier ≡ false) ⊎ (p.pinned ≡ true)

abbrev pub AllSettled : List String → VirtualMemoryTable → Type 0
AllSettled [] t = Unit {0}
AllSettled (name ∷ names) t = Settled (get name t.pages) × AllSettled names t

demoted-in_vram : (p q : Page) → some q ≡ some (demoted p) → q.tier ≢ vram
unfolding demoted is_in_vram
demoted-in_vram p q e hot = cc (
    sym (ap is_in_vram hot) ∙ ap (λ (x : Page). is_in_vram x.tier) (some-injective q (demoted p) e))

pub Became-trans :
    (name : String) (names : List String) (i : String) (o o1 o2 : Option Page)
    → Became (name ∷ []) i o o1
    → Became names i o1 o2
    → Became (name ∷ names) i o o2
Became-trans name names i o o1 o2 (inl e) (inl f) = inl (f ∙ e)
Became-trans name names i o o1 o2 (inl e) (inr (p, h, hot, free, m, f)) =
    inr (p, sym e ∙ h, hot, free, Member.tail m, f)
Became-trans name names i o o1 o2 (inr (p, h, hot, free, m, e)) (inl f) =
    inr (p, h, hot, free, Member.append_left names m, f ∙ e)
Became-trans name names i o o1 o2 (inr (p, h, hot, free, m, e)) (inr (q, k, hot', free', m', f)) =
    absurd (demoted-in_vram p q (sym k ∙ e) hot')

pub Settled-Became :
    (names : List String) (i : String) (o o' : Option Page)
    → Settled o
    → Became names i o o'
    → Settled o'
unfolding demoted is_in_vram
Settled-Became names i o o' h (inl e) = subst Settled (sym e) h
Settled-Became names i o o' h (inr (p, _, _, _, _, e)) = subst Settled (sym e) (inl refl)

-- What one step of the sweep, or several, have left.
abbrev pub Evicted :
    {F W : Type 0}
    → List String
    → String
    → VirtualMemoryTable
    → Outcome (Unit {0}) × SweptPool F W
    → Type 0
Evicted names i t r =
    Became names i (get i t.pages) (get i r.1.pool.vmt.pages)
    × Ends (λ _. AllSettled names r.1.pool.vmt) r

pub get-demoted_self :
    (t t' : VirtualMemoryTable) (name : String) (p : Page)
    → get name t.pages ≡ some p
    → t' ≡ update t name demoted
    → get name t'.pages ≡ some (demoted p)
get-demoted_self t t' name p h e =
    ap (λ (v : VirtualMemoryTable). get name v.pages) (e ∙ update_present t name demoted p h)
    ∙ get-put_self name (demoted p) t.pages

get-demoted_ne :
    (t t' : VirtualMemoryTable) (name i : String) (p : Page)
    → get name t.pages ≡ some p
    → t' ≡ update t name demoted
    → name ≢ i
    → get i t'.pages ≡ get i t.pages
get-demoted_ne t t' name i p h e ne =
    ap (λ (v : VirtualMemoryTable). get i v.pages) (e ∙ update_present t name demoted p h)
    ∙ get-put_ne name i (demoted p) t.pages ne

pub update-Became :
    (t t' : VirtualMemoryTable) (name i : String) (p : Page)
    → get name t.pages ≡ some p
    → p.tier ≡ vram
    → p.pinned ≡ false
    → t' ≡ update t name demoted
    → Became (name ∷ []) i (get i t.pages) (get i t'.pages)
update-Became t t' name i p h hot free e = elim (Bool-cases (str_eq i name)) [
  | inl same ↦
      let eq : i ≡ name = (eq_iff i name).0 same in
      inr (
        p,
        ap (λ k. get k t.pages) eq ∙ h,
        hot,
        free,
        Member.head eq,
        ap (λ k. get k t'.pages) eq ∙ get-demoted_self t t' name p h e,
      )
  | inr other ↦ inl (get-demoted_ne t t' name i p h e (not-str_eq→ne i name other))
]

pub in_vram : (x : Tier) → is_in_vram x ≡ true → x ≡ vram
unfolding is_in_vram
in_vram vram e = refl
in_vram dram e = cc e
in_vram ssd e = cc e
