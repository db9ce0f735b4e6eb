-- ===== src/FreeList/Release.antt =====
-- `release` frees a range that is handed out whole, ignores any other, and keeps the list valid.
use vugva.Common.{
  ℕ, suc, ◌+◌, ◌-◌, ◌%◌, ◌≤◌, ◌<◌, ◌^◌, ◌≡◌, refl, sym, ap, ◌∙◌, ◌⊎◌, inl, inr, Bool, true, false,
  not, ◌&&◌, ◌||◌, List, [], ◌∷◌, ◌++◌, arith, ltb, ◌==◌, if◌then◌else◌, length, Bool-cases, subst,
  ==→eq, not-==→ne, ltb→lt, not-ltb→le, append_assoc, snoc-cases, add_word-eq,
}
use vugva.FreeList.{Block, Region, align, partition_point, overlaps, insert_range, release}
use vugva.FreeList.Sorted.{
  Blocks, next_start, in_block, is_free, Blocks-append, Blocks-append_left, Blocks-append_right,
  Blocks-raise, is_free-append, is_free-cons, is_free-below, is_free-above, Blocks-cut,
  align_bounds,
}
use vugva.FreeList.Slot.{IsValid, owned, Slot}
use vugva.FreeList.Insert.{region, Freed, first-Freed, after-Freed}
use vugva.FreeList.Joint.{before, behind, before-append-behind, partition_point-eq-length}
use vugva.FreeList.Overlap.{
  starts_below, overlaps-first, overlaps-after, before-last-lt, StartsFrom, behind-StartsFrom,
}

-- What a call of `release` does to a valid region, for a range of `len` bytes.
pub record Released (r : Region) (off len : ℕ) (r' : Region) : Type 0 where
  pub valid : IsValid r'
  pub lower : r'.offset ≤ r.offset
  pub freed :
      ((a : ℕ) → in_block (off, len) a ≡ true → owned r a ≡ true)
      → (a : ℕ) → owned r' a ≡ owned r a && not (in_block (off, len) a)
  pub ignored : (a : ℕ) → in_block (off, len) a ≡ true → owned r a ≡ false → r' ≡ r

-- An empty range.
same-Released_empty : (r : Region) (off len : ℕ) → IsValid r → len ≡ 0 → Released r off len r
same-Released_empty r off len v e = record {
  valid = v;
  lower = omega arith;
  freed = λ h a. ground arith;
  ignored = λ a h k. refl;
}

-- A range with an address that is not handed out.
same-Released :
    (r : Region) (off len a : ℕ)
    → IsValid r
    → in_block (off, len) a ≡ true
    → owned r a ≡ false
    → Released r off len r
same-Released r off len a v h k = record {
  valid = v;
  lower = omega arith;
  freed = λ all b. let bad : owned r a ≡ true = all a h in absurd (ground arith);
  ignored = λ b p q. refl;
}

-- Every address of a slot is handed out.
Slot-owned :
    (top : ℕ) (pre : List Block) (off len : ℕ) (post : List Block) (a : ℕ)
    → Slot top pre off len post
    → in_block (off, len) a ≡ true
    → owned (region top (pre ++ post)) a ≡ true
unfolding owned
Slot-owned top pre off len post a s h = ground (
  arith,
  is_free-append pre post a,
  is_free-above 0 pre (suc off) a s.front,
  is_free-below (off + len) post top a s.back,
)

insert-Released :
    (top : ℕ) (pre : List Block) (off len : ℕ) (post : List Block) (r' : Region)
    → Slot top pre off len post
    → Freed top (pre ++ post) off len r'
    → Released (region top (pre ++ post)) off len r'
unfolding owned
insert-Released top pre off len post r' s f = record {
  valid = f.valid;
  lower = f.lower;
  freed = λ all a. f.owns a ∙ ground arith;
  ignored = λ a h k. absurd (ground (arith, Slot-owned top pre off len post a s h));
}

is_free-not-owned :
    (top : ℕ) (bs : List Block) (a : ℕ) → is_free bs a ≡ true → owned (region top bs) a ≡ false
unfolding owned
is_free-not-owned top bs a h = ground arith

-- The next block starts inside the range, or behind it.
back-cases :
    (top off len lo : ℕ) (post : List Block)
    → 0 < len
    → StartsFrom off post
    → Blocks lo post top
    → ((starts_below post (off + len) ≡ true)
        × ((a : ℕ) × (in_block (off, len) a ≡ true) × (is_free post a ≡ true)))
      ⊎ ((starts_below post (off + len) ≡ false) × Blocks (off + len) post top)
unfolding is_free
back-cases top off len lo [] n f v = inr (refl, tt)
back-cases top off len lo ((o, l) ∷ post) n f (v0, v1, v2, v3, v4, v) =
    elim (Bool-cases (ltb o (off + len))) [
      | inl below ↦ inl (below, (o, ground (arith, ltb→lt _ _ below), ground arith))
      | inr above ↦ inr (above, (not-ltb→le _ _ above, v1, v2, v3, v4, v))
    ]

or-true : (b : Bool) → (b || true) ≡ true
or-true true = refl
or-true false = refl

-- A range that ends below the mark, at the point where its tests look.
module _ (top : ℕ) (post : List Block) (off len : ℕ) (w : top < 2 ^ 64) (t64 : top % 64 ≡ 0)
    (nonempty : 0 < len) (aligned : off % 64 ≡ 0) (aligned_len : len % 64 ≡ 0)
    (inside : off + len ≤ top) (from : StartsFrom off post) where
  slot :
      (pre : List Block)
      → Blocks 0 pre (suc off)
      → Blocks (off + len) post top
      → Slot top pre off len post
  slot pre front back = record {
    nonempty = nonempty;
    aligned = aligned;
    aligned_len = aligned_len;
    inside = inside;
    front = front;
    back = back;
  }

  place-first :
      Blocks 0 post top
      → Released (region top post) off len (
          if overlaps post 0 off len
          then region top post
          else insert_range (region top post) 0 off len)
  place-first v =
      rw (overlaps-first post off len (omega arith))
        (elim (back-cases top off len 0 post nonempty from v) [
          | inl (t, (a, inside_a, free)) ↦ rw t (
              same-Released (region top post) off len a
                (record { bounded = w; mark = t64; blocks = v }) inside_a
                (is_free-not-owned top post a free))
          | inr (t, back) ↦ rw t (
              insert-Released top [] off len post _ (slot [] tt back)
                (first-Freed top off len post w t64 (slot [] tt back)))
        ])

  place-after :
      (pre : List Block) (po pl : ℕ)
      → po < off
      → Blocks 0 (pre ++ (po, pl) ∷ post) top
      → let bs = pre ++ (po, pl) ∷ post in
        let pos = length (pre ++ (po, pl) ∷ []) in
        Released (region top bs) off len (
          if overlaps bs pos off len
          then region top bs
          else insert_range (region top bs) pos off len)
  place-after pre po pl lt v =
      let bs : List Block = pre ++ (po, pl) ∷ post in
      let front : List Block = pre ++ (po, pl) ∷ [] in
      let valid : IsValid (region top bs) = record { bounded = w; mark = t64; blocks = v } in
      let (b0, b1, b2, b3, b4, rest) = Blocks-append_right 0 pre ((po, pl) ∷ post) top v in
      let left = Blocks-append_left 0 pre ((po, pl) ∷ post) top v in
      let joined : front ++ post ≡ bs = append_assoc pre ((po, pl) ∷ []) post in
      rw (overlaps-after pre po pl post off len (omega arith) (omega arith))
        (elim (Bool-cases (ltb off (po + pl))) [
          | inl under ↦
              rw (under, or-true)
                (same-Released (region top bs) off len off valid (ground arith) (
                  is_free-not-owned top bs off (
                    ground (
                      arith,
                      is_free-append pre ((po, pl) ∷ post) off,
                      is_free-cons (po, pl) post off,
                      ltb→lt _ _ under,
                    ))))
          | inr clear ↦
              rw clear (elim (back-cases top off len (suc (po + pl)) post nonempty from rest) [
                | inl (t, (a, inside_a, free)) ↦ rw t (
                    same-Released (region top bs) off len a valid inside_a (
                      is_free-not-owned top bs a (
                        ground (
                          arith,
                          is_free-append pre ((po, pl) ∷ post) a,
                          is_free-cons (po, pl) post a,
                        ))))
                | inr (t, back) ↦ rw t (
                    let sl : Slot top front off len post =
                      slot front
                        (Blocks-append 0 pre ((po, pl) ∷ []) (suc off)
                          (Blocks-raise 0 pre (next_start 0 pre) (suc off) (omega arith)
                            (Blocks-cut 0 pre top left))
                          (b0, b1, omega (arith, not-ltb→le _ _ clear), b3, b4, tt))
                        back in
                    let r' : Region = insert_range (region top bs) (length front) off len in
                    subst (λ xs. Released (region top xs) off len r') joined
                      (insert-Released top front off len post r' sl (
                        subst (λ xs. Freed top xs off len r') (sym joined)
                          (after-Freed top pre po pl off len post w t64 sl))))
              ])
        ])

place-Released :
    (top : ℕ) (bs : List Block) (off len : ℕ)
    → IsValid (region top bs)
    → 0 < len
    → off % 64 ≡ 0
    → len % 64 ≡ 0
    → off + len ≤ top
    → let pos = partition_point bs off in
      Released (region top bs) off len (
        if overlaps bs pos off len then region top bs else insert_range (region top bs) pos off len)
place-Released top bs off len v n al al' i =
    let from = behind-StartsFrom off bs in
    let joined = before-append-behind off bs in
    rw (partition_point-eq-length off bs) (elim (snoc-cases (before off bs)) [
      | inl e ↦
          let whole : behind off bs ≡ bs = ap (λ t. t ++ behind off bs) (sym e) ∙ joined in
          rw e (
            subst
              (λ xs. Released (region top xs) off len (
                if overlaps xs 0 off len
                then region top xs
                else insert_range (region top xs) 0 off len))
              whole
              (place-first top (behind off bs) off len v.bounded v.mark n al al' i from
                (rw whole v.blocks)))
      | inr (pre, (po, pl), e) ↦
          let whole : pre ++ (po, pl) ∷ behind off bs ≡ bs =
            sym (append_assoc pre ((po, pl) ∷ []) (behind off bs))
            ∙ ap (λ t. t ++ behind off bs) (sym e)
            ∙ joined in
          let pos : ℕ = length (pre ++ (po, pl) ∷ []) in
          rw e (
            subst
              (λ xs. Released (region top xs) off len (
                if overlaps xs pos off len
                then region top xs
                else insert_range (region top xs) pos off len))
              whole
              (place-after top (behind off bs) off len v.bounded v.mark n al al' i from pre po pl
                (before-last-lt off bs pre po pl e) (rw whole v.blocks)))
    ])

-- For every range that does not reach past the address space, `release` keeps the region valid.
-- It frees exactly a range that is handed out whole, and ignores any that is not.
pub release-Released :
    (r : Region) (off bytes : ℕ)
    → IsValid r
    → bytes ≤ 2 ^ 63
    → off % 64 ≡ 0
    → off + align bytes < 2 ^ 64
    → Released r off (align bytes) (release r off bytes)
unfolding release owned
release-Released r off bytes v small al w = elim (Bool-cases (align bytes == 0)) [
  | inl none_left ↦ rw none_left (same-Released_empty r off (align bytes) v (==→eq _ _ none_left))
  | inr some_bytes ↦
      rw (some_bytes, add_word-eq off (align bytes) w)
        (elim (Bool-cases (ltb r.offset (off + align bytes))) [
          | inl past ↦ rw past (
              same-Released r off (align bytes) (off + align bytes - 1) v
                (ground (arith, not-==→ne _ _ some_bytes))
                (ground (arith, not-==→ne _ _ some_bytes, ltb→lt _ _ past)))
          | inr below ↦ rw below (
              place-Released r.offset r.free_blocks off (align bytes) v
                (omega (arith, not-==→ne _ _ some_bytes)) al
                (omega (arith, align_bounds bytes small)) (not-ltb→le _ _ below))
        ])
]
