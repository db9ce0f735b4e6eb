-- ===== src/Display/Tests.antt =====
-- The text of two errors.
use Prim.Native.String.{◌++◌}
use vugva.Common.{◌≡◌, refl}
use vugva.Error.{dram_oom, invalid_transition, resident, allocated}
use vugva.Vmt.{decimal, digit}
use vugva.Display.{Printer, unsigned, state_name, display}

abbrev plain : Printer
plain = record { quoted = λ s. "\"" ++ (s ++ "\""); os_text = λ code. "" }

out_of_dram :
    display plain (dram_oom 128 64 4096)
    ≡ "host DRAM pool exhausted: requested 128 bytes, 64 free of 4096 total"
unfolding display unsigned decimal digit
out_of_dram = refl

refused_edge :
    display plain (invalid_transition resident allocated "kv")
    ≡ "invalid page transition Resident → Allocated on \"kv\""
unfolding display state_name
refused_edge = refl
