-- ===== src/Memmap/Print.antt =====
-- src/kernel/memory/memmap.c and physical_manager.c, what they print: `parse_multiboot_memmap`,
-- `print_mem` and `get_block_info`.
pub mod Texts
pub mod Blocks
use splongle_os.Base.{
  codes, ℕ, ◌+◌, ◌-◌, ◌*◌, ◌/◌, ◌%◌, ◌^◌, ◌<◌, ◌≡◌, refl, arith, ap, ◌∙◌, bit_and, Option, some,
  ◌>>=◌, List, [], ◌∷◌, ◌++◌, map, ◌==◌, if◌then◌else◌, u32, u64,
}
use splongle_os.Console.{Console, puts}
use splongle_os.Console.Place.{at_place}
use splongle_os.Console.Text.{puts-append}
use splongle_os.Printk.{default, long_long, convert, printk}
use splongle_os.Printk.Format.{Piece, char, conversion, AllPieces, write_format}
use splongle_os.Printk.Render.{render, number_text, shown, printk-render}
use splongle_os.Printk.Decimal.{decimal}
use splongle_os.Pmm.{Pmm}
use splongle_os.Memmap.{Info, Entry, has_mem_map, walk, add_length, add_free}
use splongle_os.Memmap.Walk.{LaidOut, visit, walk_lem}

-- The two words of an argument of 64 bits.
abbrev pub low_word : ℕ → ℕ
low_word v = u32 v

abbrev pub high_word : ℕ → ℕ
high_word v = u32 (v / 2 ^ 32)

-- What all three walks print where the loader gave no map.
pub print_no_map : Info → Console → Option Console
print_no_map info s =
    printk (λ a. []) (codes "No multiboot memory map; mem_lower=%u mem_upper=%u\n")
      (info.mem_lower ∷ info.mem_upper ∷ []) s

-- One round: `total_mem`, `free_mem` and the screen.
pub print_entry : Entry → Option (ℕ × ℕ × Console) → Option (ℕ × ℕ × Console)
print_entry e acc = do
  (total, free, s) ← acc
  t ←
      printk (λ a. []) (codes "mmap: base=0x%llx len=0x%llx type=%u\n")
        (low_word e.base ∷ high_word e.base ∷ low_word e.length ∷ high_word e.length ∷ e.kind ∷ [])
        s
  some (add_length e total, add_free e free, t)

pub print_totals : ℕ → ℕ → Console → Option Console
print_totals total free s =
    let all = total / 4096 in
    let used = u64 (total + 2 ^ 64 - free) / 4096 in
    let available = free / 4096 in
    printk (λ a. [])
      (codes "Total blocks: %llu\nTotal used blocks: %llu\nTotal free blocks: %llu\n")
      (low_word all
        ∷ high_word all
        ∷ low_word used
        ∷ high_word used
        ∷ low_word available
        ∷ high_word available
        ∷ [])
      s

pub parse_multiboot_memmap : (ℕ → Entry) → Info → Console → Option Console
parse_multiboot_memmap entries info s =
    if bit_and info.flags has_mem_map == 0 then print_no_map info s else (do
      (total, free, t) ← walk print_entry entries info info.mmap_length 0 (some (0, 0, s))
      print_totals total free t)

pub get_block_info : Pmm → Console → Option Console
get_block_info p s =
    printk (λ a. []) (codes "Total blocks: %u, Used blocks: %u") (p.max_blocks ∷ p.used_blocks ∷ [])
      s

pub print_mem : Pmm → Console → Option Console
print_mem p s = at_place 0 0 (get_block_info p) s
