-- ===== src/Tiered/Write.antt =====
-- src/tiered.rs: `TieredPool::write_page`.
use Prim.Native.String.{String, ◌++◌ as str_append}
use Prim.Native.Nat.{min}
use vugva.Common.{
  ℕ, zero, suc, ◌-◌, ◌==◌, not, List, [], ◌∷◌, if◌then◌else◌, leb, add_word, take, length,
}
use vugva.Error.{io, IoError, unknown_allocation}
use vugva.Vmt.{vram, dram, ssd, DramChunk, Page}
use vugva.Action.{Action, pure, raise, gets, or_raise, modify, ◌>>=◌, ◌>>◌}
use vugva.Driver.{Driver}
use vugva.Tiered.State.{TieredPool, file_call, page_of}

unfoldable pub drop : ℕ → List ℕ → List ℕ
drop zero bytes = bytes
drop (suc n) [] = []
drop (suc n) (_ ∷ bytes) = drop n bytes

-- `data[from..to]`
unfoldable pub slice : List ℕ → ℕ → ℕ → List ℕ
unfolding drop
slice bytes from to = take (to - from) (drop from bytes)

-- The pieces that the loop over the chunks copies, each with its address, and how many bytes it
-- has written in the end.
unfoldable pub pieces : List ℕ → ℕ → ℕ → List DramChunk → List (ℕ × List ℕ) × ℕ
unfolding slice
pieces bytes total written [] = ([], written)
pieces bytes total written (c ∷ cs) =
    let end = min (add_word written c.size_bytes) total in
    let (later, last) = pieces bytes total end cs in
    if leb end written then ([], written) else ((c.host_ptr, slice bytes written end) ∷ later, last)

module _ {W : Type 0} (cuda : Driver W) where
  unfoldable pub write_pieces : List (ℕ × List ℕ) → W → W
  write_pieces [] w = w
  write_pieces ((ptr, piece) ∷ rest) w = write_pieces rest (cuda.write_host ptr piece w)

  unfoldable pub write_cold : String → List ℕ → Page → Action (TieredPool W) (Unit {0})
  write_cold name bytes page =
      or_raise page.ssd_offset
        (unknown_allocation (str_append name ": page is on Tier::Ssd but has no spill offset"))
      >>= λ offset. gets (λ s. s.spill) >>= λ spill.
          or_raise spill (
            unknown_allocation
              (str_append name ": page is on Tier::Ssd but no spill file is attached"))
          >> file_call (cuda.write_file offset bytes)

  unfoldable pub write_backed : String → List ℕ → Page → Action (TieredPool W) (Unit {0})
  unfolding pieces write_pieces
  write_backed name bytes page =
      let (copies, written) = pieces bytes page.size_bytes 0 page.dram_chunks in
      modify (λ s. record s { world = write_pieces copies s.world })
      >> (if not (written == page.size_bytes)
          then raise (io (IoError.invalid_data name written page.size_bytes))
          else pure tt)

  unfoldable pub write_page : String → List ℕ → Action (TieredPool W) (Unit {0})
  unfolding write_cold write_backed
  write_page name bytes = page_of name >>= λ page.
      if not (length bytes == page.size_bytes)
      then raise (io (IoError.invalid_input name (length bytes) page.size_bytes))
      else elim page.tier [
        | ssd ↦ write_cold name bytes page
        | vram ↦ write_backed name bytes page
        | dram ↦ write_backed name bytes page
      ]
