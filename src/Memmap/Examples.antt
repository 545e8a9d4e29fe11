-- ===== src/Memmap/Examples.antt =====
-- A map of two entries, and the claims about it.
use splongle_os.Base.{ℕ, ◌≡◌, refl, arith, some, ◌%◌, ◌++◌, [], ◌∷◌, ◌==◌, if◌then◌else◌}
use splongle_os.Console.{Console, puts}
use splongle_os.Console.Place.{IsShown}
use splongle_os.Memmap.Print.{parse_multiboot_memmap, print_mem}
use splongle_os.Memmap.Print.Texts.{entries_text, totals_text, parse_multiboot_memmap_lem}
use splongle_os.Memmap.Print.Blocks.{block_info_text, print_mem-IsShown}
use splongle_os.Pmm.{Pmm, check_block}
use splongle_os.Memmap.{Info, Entry, get_total_mem, get_num_entries, set_type1}
use splongle_os.Memmap.Walk.{LaidOut, visit, memory_map_lem}
use splongle_os.Memmap.Regions.{marked, set_type1_lem}

abbrev low : Entry
low = record { size = 20; base = 0; length = 0x9_F000; kind = 1 }

abbrev reserved : Entry
reserved = record { size = 20; base = 0x9_F000; length = 0x1000; kind = 2 }

abbrev at_address : ℕ → Entry
at_address a = if a == 0x1000 then low else reserved

abbrev info : Info
info = record {
  flags = 0x40;
  mem_lower = 640;
  mem_upper = 0xFC00;
  mmap_length = 48;
  mmap_addr = 0x1000;
}

info-LaidOut : LaidOut at_address info 0 (low ∷ reserved ∷ [])
info-LaidOut = (refl, omega arith, (refl, omega arith, refl))

memory_map_lem_example :
    (get_total_mem at_address info ≡ 0xA_0000) × (get_num_entries at_address info ≡ 2)
memory_map_lem_example =
    memory_map_lem at_address info (low ∷ reserved ∷ []) (omega arith) info-LaidOut

abbrev all_used : Pmm
all_used = record {
  memory_map = λ i. 0xFFFF_FFFF;
  map_address = 0x1_0000;
  max_blocks = 160;
  used_blocks = 160;
}

set_type1_lem_example :
    check_block 0x9E (set_type1 at_address info all_used)
    ≡ visit (marked 0x9E) (low ∷ reserved ∷ []) (check_block 0x9E all_used)
set_type1_lem_example =
    set_type1_lem at_address info (low ∷ reserved ∷ []) 0x9E all_used (omega arith) info-LaidOut
      (omega arith, (omega arith, refl))

abbrev screen : Console
screen = record { screen = λ o. o % 256; x = 3; y = 4; color = 0x0F; bus = [] }

parse_multiboot_memmap_lem_example :
    parse_multiboot_memmap at_address info screen
    ≡ some (puts (entries_text (low ∷ reserved ∷ []) ++ totals_text 0xA_0000 0x9_F000) screen)
parse_multiboot_memmap_lem_example =
    parse_multiboot_memmap_lem at_address info (low ∷ reserved ∷ []) screen (omega arith)
      info-LaidOut (omega arith, omega arith, (omega arith, omega arith, tt)) (omega arith)

print_mem-IsShown_example :
    (u : Console) × (print_mem all_used screen ≡ some u)
    × IsShown screen u 0 (block_info_text all_used)
print_mem-IsShown_example = print_mem-IsShown all_used screen (omega arith) (omega arith) (record {
  column = omega arith;
  row = omega arith;
  colored = omega arith;
  bytes = λ o. omega arith;
})
