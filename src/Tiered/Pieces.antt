-- ===== src/Tiered/Pieces.antt =====
-- What `write_page` copies to the DRAM chunks of a page.
use Prim.Native.Nat.{min}
use vugva.Common.{
  ℕ, zero, suc, ◌+◌, ◌-◌, ◌<◌, ◌≤◌, ◌^◌, ◌≡◌, refl, sym, ap, ◌∙◌, inl, inr, List, [], ◌∷◌, ◌++◌,
  length, take, arith, leb, leb→le, le→leb, lt→not-leb, not-leb→lt, add_word, add_word-eq,
  Bool-cases,
}
use vugva.Vmt.{DramChunk}
use vugva.Tiered.Write.{drop, slice, pieces}
use vugva.Tiered.Split.{sum_sizes}

unfoldable pub joined : List (ℕ × List ℕ) → List ℕ
joined [] = []
joined ((_, piece) ∷ rest) = piece ++ joined rest

-- Each piece fits in its chunk.
pub data Fits : List (ℕ × List ℕ) → List DramChunk → Type 0 where
  stop : (cs : List DramChunk) → Fits [] cs
  into :
      (piece : List ℕ) (c : DramChunk) (rest : List (ℕ × List ℕ)) (cs : List DramChunk)
      → length piece ≤ c.size_bytes
      → Fits rest cs
      → Fits ((c.host_ptr, piece) ∷ rest) (c ∷ cs)

drop-all : (n : ℕ) (bytes : List ℕ) → length bytes ≤ n → drop n bytes ≡ []
unfolding drop
drop-all zero [] h = refl
drop-all zero (b ∷ bytes) h = absurd (omega (arith, h))
drop-all (suc n) [] h = refl
drop-all (suc n) (b ∷ bytes) h = drop-all n bytes (omega (arith, h))

take-drop : (n : ℕ) (bytes : List ℕ) → take n bytes ++ drop n bytes ≡ bytes
unfolding drop
take-drop zero bytes = refl
take-drop (suc n) [] = refl
take-drop (suc n) (b ∷ bytes) = ap (b ∷◌) (take-drop n bytes)

suc-sum : (m n : ℕ) → suc m + n ≡ suc (m + n)
suc-sum m n = omega arith

drop-drop : (n m : ℕ) (bytes : List ℕ) → drop n (drop m bytes) ≡ drop (m + n) bytes
unfolding drop
drop-drop n zero bytes = ap (λ k. drop k bytes) (omega arith)
drop-drop n (suc m) [] =
    rw (drop-all n [] (omega arith)) (sym (drop-all (suc m + n) [] (omega arith)))
drop-drop n (suc m) (b ∷ bytes) =
    drop-drop n m bytes ∙ sym (ap (λ k. drop k (b ∷ bytes)) (suc-sum m n))

length-take_le : (n : ℕ) (bytes : List ℕ) → length (take n bytes) ≤ n
length-take_le zero bytes = omega arith
length-take_le (suc n) [] = omega arith
length-take_le (suc n) (b ∷ bytes) = let rest = length-take_le n bytes in omega (arith, rest)

slice-drop :
    (bytes : List ℕ) (from to : ℕ)
    → from ≤ to
    → slice bytes from to ++ drop to bytes ≡ drop from bytes
unfolding slice
slice-drop bytes from to h =
    ap (λ k. slice bytes from to ++ drop k bytes) (omega arith)
    ∙ ap (slice bytes from to ++◌) (sym (drop-drop (to - from) from bytes))
    ∙ take-drop (to - from) (drop from bytes)

length-slice_le : (bytes : List ℕ) (from to : ℕ) → length (slice bytes from to) ≤ to - from
unfolding slice
length-slice_le bytes from to = length-take_le (to - from) (drop from bytes)

abbrev pub AllNonempty : List DramChunk → Type 0
AllNonempty [] = Unit {0}
AllNonempty (c ∷ cs) = (0 < c.size_bytes) × AllNonempty cs

-- Where the loop stops.
pieces_stop :
    (bytes : List ℕ) (total written : ℕ) (c : DramChunk) (cs : List DramChunk)
    → min (add_word written c.size_bytes) total ≤ written
    → pieces bytes total written (c ∷ cs) ≡ ([], written)
unfolding pieces
pieces_stop bytes total written c cs h = rw (le→leb _ _ h, pieces) refl

pieces_next :
    (bytes : List ℕ) (total written : ℕ) (c : DramChunk) (cs : List DramChunk)
    → written < min (add_word written c.size_bytes) total
    → let end = min (add_word written c.size_bytes) total in
      pieces bytes total written (c ∷ cs) ≡ (
        (c.host_ptr, slice bytes written end) ∷ (pieces bytes total end cs).0,
        (pieces bytes total end cs).1,
      )
unfolding pieces
pieces_next bytes total written c cs h = rw (lt→not-leb _ _ h, pieces) refl

pieces-lem :
    (bytes : List ℕ) (written : ℕ) (chunks : List DramChunk)
    → AllNonempty chunks
    → written ≤ length bytes
    → length bytes ≤ written + sum_sizes chunks
    → written + sum_sizes chunks < 2 ^ 64
    → let (copies, last) = pieces bytes (length bytes) written chunks in
      (joined copies ≡ drop written bytes) × (last ≡ length bytes) × Fits copies chunks
unfolding pieces joined sum_sizes
pieces-lem bytes written [] some_room h room w =
    (sym (drop-all written bytes (omega arith)), omega arith, stop [])
pieces-lem bytes written (c ∷ cs) (positive, some_room) h room w =
    let total : ℕ = length bytes in
    let end : ℕ = min (add_word written c.size_bytes) total in
    let sum : add_word written c.size_bytes ≡ written + c.size_bytes =
      add_word-eq written c.size_bytes (omega arith) in
    elim (Bool-cases (leb end written)) [
      | inl e ↦ rw (pieces_stop bytes total written c cs (leb→le _ _ e)) (
        sym (drop-all written bytes (omega (arith, sum, leb→le _ _ e))),
        omega (arith, sum, leb→le _ _ e),
        stop _,
      )
      | inr e ↦
          let more : written < end = not-leb→lt _ _ e in
          let (j, l, f) =
            pieces-lem bytes end cs some_room (omega arith) (omega (arith, sum))
              (omega (arith, sum)) in
          rw (pieces_next bytes total written c cs more) (
            ap (slice bytes written end ++◌) j ∙ slice-drop bytes written end (omega (arith, more)),
            l,
            into _ c _ cs (omega (arith, sum, length-slice_le bytes written end)) f,
          )
    ]

-- A page whose chunks each hold at least one byte, and together as many as the page, is written
-- in full: the pieces are its bytes in order, each within its own chunk.
pub pieces-cover :
    (bytes : List ℕ) (chunks : List DramChunk)
    → AllNonempty chunks
    → sum_sizes chunks ≡ length bytes
    → length bytes < 2 ^ 64
    → let (copies, written) = pieces bytes (length bytes) 0 chunks in
      (joined copies ≡ bytes) × (written ≡ length bytes) × Fits copies chunks
unfolding drop
pieces-cover bytes chunks some_room sum w =
    pieces-lem bytes 0 chunks some_room (omega arith) (omega (arith, sum)) (omega (arith, sum))

-- The loop ends at a chunk of no bytes, whatever room the chunks behind it have.
pub pieces-empty_chunk :
    (bytes : List ℕ) (total : ℕ) (c : DramChunk) (cs : List DramChunk)
    → c.size_bytes ≡ 0
    → pieces bytes total 0 (c ∷ cs) ≡ ([], 0)
pieces-empty_chunk bytes total c cs e = pieces_stop bytes total 0 c cs (omega (arith, e))
