-- ===== src/Dma/Queue.antt =====
-- A ring behaves as a first-in first-out queue of 1024 descriptors, as long as its counters do not
-- wrap.
use vugva.Common.{
  ℕ, zero, suc, ◌+◌, ◌-◌, ◌%◌, ◌≤◌, ◌<◌, ◌^◌, ◌≡◌, refl, sym, ap, ap₂, ◌∙◌, inl, inr, Option, none,
  some, List, [], ◌∷◌, ◌++◌, arith, leb, if◌then◌else◌, length, get_or, set, Bool-cases,
  get_or-set_self, get_or-set_ne, length-set, leb→le, not-leb→lt,
}
use vugva.Common.Bits.{bit_and-ten_ones}
use vugva.Error.{ok, err, dma_ring_full}
use vugva.Dma.{DmaDescriptor, DmaRing, blank, pending_count, is_full, submit, peek, ack}

-- A ring whose counters are in order and have not wrapped.
pub record IsValid (r : DmaRing) : Type 0 where
  pub slots : length r.ring ≡ 1024
  pub capacity : r.capacity ≡ 1024
  pub mask : r.mask ≡ 1023
  pub ordered : r.consumer ≤ r.completion.submitted
  pub room : r.completion.submitted ≤ r.consumer + 1024
  pub unwrapped : r.completion.submitted < 2 ^ 32

-- The `n` descriptors from counter `c` on.
abbrev pub window : List DmaDescriptor → ℕ → ℕ → List DmaDescriptor
window ring c zero = []
window ring c (suc n) = get_or ring (c % 1024) blank ∷ window ring (c + 1) n

-- The queue that a ring holds, oldest first.
unfoldable pub contents : DmaRing → List DmaDescriptor
contents r = window r.ring r.consumer (r.completion.submitted - r.consumer)

abbrev pub first : List DmaDescriptor → Option DmaDescriptor
first [] = none
first (d ∷ _) = some d

pub length-window : (ring : List DmaDescriptor) (c n : ℕ) → length (window ring c n) ≡ n
length-window ring c zero = refl
length-window ring c (suc n) = ap suc (length-window ring (c + 1) n)

window-set :
    (ring : List DmaDescriptor) (c n s : ℕ) (v : DmaDescriptor)
    → length ring ≡ 1024
    → n < 1024
    → s ≡ c + n
    → window (set ring (s % 1024) v) c (suc n) ≡ window ring c n ++ v ∷ []
window-set ring c zero s v l h e =
    let here : s % 1024 ≡ c % 1024 = ap (λ k. k % 1024) (omega arith) in
    rw (here, get_or-set_self ring (c % 1024) v blank (omega arith)) refl
window-set ring c (suc n) s v l h e =
    ap₂ ◌∷◌ (get_or-set_ne ring (s % 1024) (c % 1024) v blank (omega arith))
      (window-set ring (c + 1) n s v l (omega arith) (omega arith))

first-window :
    (ring : List DmaDescriptor) (c n : ℕ)
    → 0 < n
    → first (window ring c n) ≡ some (get_or ring (c % 1024) blank)
first-window ring c zero h = absurd (omega arith)
first-window ring c (suc n) h = refl

rest-window :
    (ring : List DmaDescriptor) (c n : ℕ) (desc : DmaDescriptor) (rest : List DmaDescriptor)
    → window ring c n ≡ desc ∷ rest
    → (0 < n) × (window ring (c + 1) (n - 1) ≡ rest)
rest-window ring c zero desc rest e = let bad : ⊥ = cc in absurd bad
rest-window ring c (suc n) desc rest e =
    (omega arith, ap (window ring (c + 1)) {y = n} (omega arith) ∙ cc)

-- A submission to a full queue is refused and changes nothing; any other goes to the queue's end.
pub submit_refines :
    (r : DmaRing) (desc : DmaDescriptor)
    → IsValid r
    → r.completion.submitted + 1 < 2 ^ 32
    → let (res, r') = submit r desc in
      IsValid r'
      × (if leb 1024 (length (contents r))
          then (res ≡ err dma_ring_full) × (r' ≡ r)
          else (res ≡ ok (r.completion.submitted % 1024)) × (contents r' ≡ contents r ++ desc ∷ []))
unfolding submit contents is_full pending_count
submit_refines r desc v w =
    let size = length-window r.ring r.consumer (r.completion.submitted - r.consumer) in
    rw (v.capacity, v.mask, bit_and-ten_ones, size)
      (elim (Bool-cases (leb 1024 (r.completion.submitted - r.consumer))) [
        | inl full ↦ rw full (omega arith, (refl, refl))
        | inr more ↦ rw more (
          record {
            slots = length-set r.ring (r.completion.submitted % 1024) desc ∙ v.slots;
            capacity = refl;
            mask = refl;
            ordered = omega arith;
            room = omega (arith, not-leb→lt _ _ more);
            unwrapped = omega arith;
          },
          (
            refl,
            ap (window (set r.ring (r.completion.submitted % 1024) desc) r.consumer)
                  {y = suc (r.completion.submitted - r.consumer)} (omega arith)
                ∙ window-set r.ring r.consumer (r.completion.submitted - r.consumer)
                    r.completion.submitted desc v.slots (omega (arith, not-leb→lt _ _ more))
                    (omega arith),
          ),
        )
      ])

-- `peek` shows the oldest descriptor.
peek_refines : (r : DmaRing) → IsValid r → peek r ≡ first (contents r)
unfolding peek contents
peek_refines r v = elim (Bool-cases (leb r.completion.submitted r.consumer)) [
  | inl none_left ↦
      rw none_left
        (ap (λ n. first (window r.ring r.consumer n)) {x = 0} (omega (arith, leb→le _ _ none_left)))
  | inr more ↦
      rw (more, v.mask, bit_and-ten_ones)
        (sym (first-window r.ring r.consumer _ (omega (arith, not-leb→lt _ _ more))))
]

-- `ack` of a queue that is not empty drops its oldest descriptor.
ack_refines :
    (r : DmaRing) (desc : DmaDescriptor) (rest : List DmaDescriptor)
    → IsValid r
    → contents r ≡ desc ∷ rest
    → IsValid (ack r) × (contents (ack r) ≡ rest)
unfolding ack contents
ack_refines r desc rest v e =
    let (pos, tail) =
      rest-window r.ring r.consumer (r.completion.submitted - r.consumer) desc rest e in
    (
      record {
        slots = v.slots;
        capacity = v.capacity;
        mask = v.mask;
        ordered = omega arith;
        room = omega arith;
        unwrapped = v.unwrapped;
      },
      ap₂ (window r.ring) {y = r.consumer + 1} (omega arith) (omega arith) ∙ tail,
    )

-- `peek` of a queue that is not empty shows its oldest descriptor, and `ack` drops it and keeps the ring valid.
pub peek-ack_refines :
    (r : DmaRing) (desc : DmaDescriptor) (rest : List DmaDescriptor)
    → IsValid r
    → contents r ≡ desc ∷ rest
    → (peek r ≡ some desc) × IsValid (ack r) × (contents (ack r) ≡ rest)
peek-ack_refines r desc rest v e =
    let (valid, tail) = ack_refines r desc rest v e in (peek_refines r v ∙ ap first e, valid, tail)
