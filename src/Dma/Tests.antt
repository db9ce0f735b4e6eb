-- ===== src/Dma/Tests.antt =====
-- Rings and engines at concrete inputs.
use vugva.Common.{
  get_elem?, ℕ, ◌+◌, ◌%◌, ◌≤◌, ◌<◌, ◌^◌, ◌≡◌, refl, none, some, [], ◌∷◌, ◌++◌, arith, take, length,
  length-replicate, replicate, if◌then◌else◌, leb,
}
use vugva.Error.{ok, err, dma_ring_full}
use vugva.Dma.{
  DmaDescriptor, DmaRing, DmaEngine, descriptor_size, blank, submit, peek, ack, pending_count,
}
use vugva.Dma.Queue.{IsValid, contents, submit_refines, peek-ack_refines}
use vugva.Dma.Faults.{submit_all, submit_all-keeps, submit_wraps}

descriptor_size_64 : descriptor_size ≡ 64
unfolding descriptor_size
descriptor_size_64 = refl

abbrev transfer : DmaDescriptor
transfer = record {
  src_addr = 4096;
  dst_addr = 8192;
  size = 512;
  src_ordinal = 0;
  dst_ordinal = 0;
  priority = 2;
  flags = 0;
}

-- A ring of blanks whose counters stand where they are told to.
abbrev ring_at : ℕ → ℕ → DmaRing
ring_at consumer submitted = record {
  ring = replicate 1024 blank;
  consumer = consumer;
  completion = record { submitted = submitted; completed = consumer };
  capacity = 1024;
  mask = 1023;
}

ring_at-IsValid : (c s : ℕ) → c ≤ s → s ≤ c + 1024 → s < 2 ^ 32 → IsValid (ring_at c s)
ring_at-IsValid c s le room w = record {
  slots = length-replicate 1024 blank;
  capacity = refl;
  mask = refl;
  ordered = le;
  room = room;
  unwrapped = w;
}

submit_refines_example :
    let (res, r') = submit (ring_at 0 0) transfer in
    IsValid r'
    × (if leb 1024 (length (contents (ring_at 0 0)))
        then (res ≡ err dma_ring_full) × (r' ≡ ring_at 0 0)
        else (res ≡ ok (0 % 1024)) × (contents r' ≡ contents (ring_at 0 0) ++ transfer ∷ []))
submit_refines_example =
    submit_refines (ring_at 0 0) transfer
      (ring_at-IsValid 0 0 (omega arith) (omega arith) (omega arith)) (omega arith)

two_blanks : contents (ring_at 3 5) ≡ blank ∷ blank ∷ []
unfolding contents
two_blanks = refl

peek-ack_refines_example :
    (peek (ring_at 3 5) ≡ some blank)
    × IsValid (ack (ring_at 3 5))
    × (contents (ack (ring_at 3 5)) ≡ blank ∷ [])
peek-ack_refines_example =
    peek-ack_refines (ring_at 3 5) blank (blank ∷ [])
      (ring_at-IsValid 3 5 (omega arith) (omega arith) (omega arith)) two_blanks

submit_all-keeps_example :
    contents (submit_all (ring_at 0 1023) (transfer ∷ transfer ∷ []))
    ≡ take 1024 (contents (ring_at 0 1023) ++ transfer ∷ transfer ∷ [])
submit_all-keeps_example =
    submit_all-keeps (ring_at 0 1023) (transfer ∷ transfer ∷ [])
      (ring_at-IsValid 0 1023 (omega arith) (omega arith) (omega arith)) (omega arith)

abbrev before_wrap : DmaRing
before_wrap = ring_at 4294967294 4294967295

submit_wraps_example :
    let (res, r') = submit before_wrap transfer in
    (res ≡ ok (before_wrap.completion.submitted % 1024))
    × (get_elem? r'.ring (before_wrap.completion.submitted % 1024) ≡ some transfer)
    × (pending_count r' ≡ 0)
    × (peek r' ≡ none)
submit_wraps_example =
    submit_wraps before_wrap transfer
      (ring_at-IsValid 4294967294 4294967295 (omega arith) (omega arith) (omega arith)) refl
      (omega arith)

abbrev two_gpus : DmaEngine
two_gpus = record { rings = ring_at 0 0 ∷ ring_at 3 5 ∷ []; num_gpus = 2 }
