-- ===== src/Dma/Faults.antt =====
-- What a ring does past its ordinary use: when nothing consumes it, when its counter wraps, and
-- when `ack` is called once too often.
use vugva.Common.Bits.{bit_and-ten_ones}
use vugva.Common.{
  ℕ, zero, suc, some, get_elem?, set, ◌+◌, ◌-◌, ◌%◌, ◌≤◌, ◌<◌, ◌^◌, ◌≡◌, refl, sym, ap, ◌∙◌, inl,
  inr, true, false, none, List, [], ◌∷◌, ◌++◌, arith, leb, if◌then◌else◌, length, take,
  take-append_exact, take_all, append_assoc, append-nil, Bool-cases, leb→le, le→leb, lt→not-leb,
}
use vugva.Error.{ok, err, dma_ring_full}
use vugva.Dma.{DmaDescriptor, DmaRing, next_u32, pending_count, is_full, submit, peek, ack}
use vugva.Dma.Queue.{IsValid, contents, length-window, submit_refines}

get_elem?-set_in :
    {A : Type 0} (xs : List A) (i : ℕ) (x : A) → i < length xs → get_elem? (set xs i x) i ≡ some x
get_elem?-set_in [] i x h = absurd (omega (arith, h))
get_elem?-set_in (y ∷ ys) zero x h = refl
get_elem?-set_in (y ∷ ys) (suc i) x h = get_elem?-set_in ys i x (omega (arith, h))

-- Submissions in a row, with no `ack` between them.
unfoldable pub submit_all : DmaRing → List DmaDescriptor → DmaRing
submit_all r [] = r
submit_all r (d ∷ ds) = submit_all (submit r d).1 ds

length-contents : (r : DmaRing) → length (contents r) ≡ r.completion.submitted - r.consumer
unfolding contents
length-contents r = length-window r.ring r.consumer (r.completion.submitted - r.consumer)

submitted-submit-le :
    (r : DmaRing) (d : DmaDescriptor)
    → r.completion.submitted + 1 < 2 ^ 32
    → (submit r d).1.completion.submitted ≤ r.completion.submitted + 1
unfolding submit is_full
submitted-submit-le r d w = ground arith

-- The two outcomes of `submit_refines`, with its test decided.
abbrev Outcome : DmaRing → DmaDescriptor → Type 0
Outcome r d =
    if leb 1024 (length (contents r))
    then ((submit r d).0 ≡ err dma_ring_full) × ((submit r d).1 ≡ r)
    else ((submit r d).0 ≡ ok (r.completion.submitted % 1024))
      × (contents (submit r d).1 ≡ contents r ++ d ∷ [])

after_full :
    (r : DmaRing) (d : DmaDescriptor)
    → leb 1024 (length (contents r)) ≡ true
    → Outcome r d
    → (submit r d).1 ≡ r
after_full r d full o = (rw full at o).1

after_more :
    (r : DmaRing) (d : DmaDescriptor)
    → leb 1024 (length (contents r)) ≡ false
    → Outcome r d
    → contents (submit r d).1 ≡ contents r ++ d ∷ []
after_more r d more o = (rw more at o).1

-- A ring that nothing consumes keeps its first 1024 descriptors: all later ones are refused.
pub submit_all-keeps :
    (r : DmaRing) (ds : List DmaDescriptor)
    → IsValid r
    → r.completion.submitted + length ds < 2 ^ 32
    → contents (submit_all r ds) ≡ take 1024 (contents r ++ ds)
unfolding submit_all
submit_all-keeps r [] v w = sym (
    ap (take 1024) (append-nil (contents r))
    ∙ take_all 1024 (contents r) (omega (arith, length-contents r, v)))
submit_all-keeps r (d ∷ ds) v w =
    let (v', after) = submit_refines r d v (omega arith) in
    let later =
      submit_all-keeps (submit r d).1 ds v'
        (omega (arith, submitted-submit-le r d (omega arith))) in
    elim (Bool-cases (leb 1024 (length (contents r)))) [
      | inl full ↦
          let e : contents (submit r d).1 ≡ contents r = ap contents (after_full r d full after) in
          let whole : length (contents r) ≡ 1024 =
            omega (arith, length-contents r, v, leb→le _ _ full) in
          later
          ∙ ap (λ t. take 1024 (t ++ ds)) e
          ∙ take-append_exact 1024 (contents r) ds whole
          ∙ sym (take-append_exact 1024 (contents r) (d ∷ ds) whole)
      | inr more ↦
          later
          ∙ ap (λ t. take 1024 (t ++ ds)) (after_more r d more after)
          ∙ ap (take 1024) (append_assoc (contents r) (d ∷ []) ds)
    ]

-- When the submission counter wraps, the submission is accepted and stands in its slot, but the ring reads as empty:
-- nothing of it can be peeked at.
pub submit_wraps :
    (r : DmaRing) (d : DmaDescriptor)
    → IsValid r
    → r.completion.submitted + 1 ≡ 2 ^ 32
    → r.completion.submitted < r.consumer + 1024
    → let (res, r') = submit r d in
      (res ≡ ok (r.completion.submitted % 1024))
      × (get_elem? r'.ring (r.completion.submitted % 1024) ≡ some d)
      × (pending_count r' ≡ 0)
      × (peek r' ≡ none)
unfolding submit is_full pending_count peek
submit_wraps r d v e more =
    let open_slot : leb r.capacity (r.completion.submitted - r.consumer) ≡ false =
      lt→not-leb _ _ (omega arith) in
    let empty : leb (next_u32 r.completion.submitted) r.consumer ≡ true =
      le→leb _ _ (omega arith) in
    rw (open_slot, empty, v.mask, bit_and-ten_ones)
      (
        refl,
        get_elem?-set_in r.ring (r.completion.submitted % 1024) d (omega (arith, v.slots)),
        omega arith,
        refl,
      )

-- An `ack` of an empty ring makes the next submission invisible.
pub peek-submit-ack_empty :
    (r : DmaRing) (d : DmaDescriptor)
    → IsValid r
    → r.consumer ≡ r.completion.submitted
    → r.completion.submitted + 1 < 2 ^ 32
    → peek (submit (ack r) d).1 ≡ none
unfolding submit is_full pending_count peek ack
peek-submit-ack_empty r d v e w =
    let c : ℕ = next_u32 r.consumer in
    let open_slot : leb r.capacity (r.completion.submitted - c) ≡ false =
      lt→not-leb _ _ (omega arith) in
    let empty : leb (next_u32 r.completion.submitted) c ≡ true = le→leb _ _ (omega arith) in
    rw (open_slot, empty) refl
