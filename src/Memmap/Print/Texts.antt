-- ===== src/Memmap/Print/Texts.antt =====
-- What `parse_multiboot_memmap` prints.
use splongle_os.Base.{
  codes, ℕ, ◌+◌, ◌-◌, ◌*◌, ◌/◌, ◌%◌, ◌^◌, ◌<◌, ◌≡◌, ◌≢◌, refl, sym, arith, ap, ◌∙◌, bit_and, some,
  List, [], ◌∷◌, ◌++◌, map, false, ◌==◌, if◌then◌else◌, u64,
}
use splongle_os.Console.{Console, puts}
use splongle_os.Console.Text.{puts-append, puts_nothing}
use splongle_os.Printk.{default, long_long, convert}
use splongle_os.Printk.Format.{Piece, char, conversion, AllPieces}
use splongle_os.Printk.Render.{render, shown, printk-render}
use splongle_os.Printk.Decimal.{decimal}
use splongle_os.Memmap.{Info, Entry, add_length, add_free}
use splongle_os.Memmap.Print.{
  low_word, high_word, print_entry, print_totals, parse_multiboot_memmap,
}
use splongle_os.Memmap.Walk.{
  LaidOut, visit, walk_lem, sum_lengths, visit-add_length, visit-add_length-lt,
}

abbrev hexadecimal : ℕ → List ℕ
hexadecimal n = convert 64 n 16 []

abbrev pub entry_text : Entry → List ℕ
entry_text e =
    codes "mmap: base=0x"
    ++ (hexadecimal e.base
        ++ (codes " len=0x"
            ++ (hexadecimal e.length ++ (codes " type=" ++ (decimal e.kind ++ codes "\n")))))

abbrev entry_pieces : List Piece
entry_pieces =
    map char (codes "mmap: base=0x")
    ++ (conversion long_long b'x'
        ∷ (map char (codes " len=0x")
            ++ (conversion long_long b'x'
                ∷ (map char (codes " type=") ++ (conversion default b'u' ∷ char b'\n' ∷ [])))))

entry_pieces-AllPieces : AllPieces entry_pieces
entry_pieces-AllPieces = omega arith

print_entry-puts :
    (e : Entry) (total free : ℕ) (s : Console)
    → e.base < 2 ^ 64
    → e.length < 2 ^ 64
    → print_entry e (some (total, free, s))
      ≡ some (add_length e total, add_free e free, puts (entry_text e) s)
unfolding print_entry
print_entry-puts e total free s h k =
    let base : low_word e.base + 2 ^ 32 * high_word e.base ≡ e.base = omega (arith, h) in
    let length : low_word e.length + 2 ^ 32 * high_word e.length ≡ e.length = omega (arith, k) in
    let args =
      low_word e.base ∷ high_word e.base ∷ low_word e.length ∷ high_word e.length ∷ e.kind ∷ [] in
    let text : render (λ a. []) entry_pieces args ≡ some (entry_text e) = rw (base, length) refl in
    let printed =
      printk-render (λ a. []) entry_pieces args s entry_pieces-AllPieces ∙ ap (shown s) text in
    rw printed refl

-- The fields of an entry are of 64 bits.
abbrev pub AllWide : List Entry → Type 0
AllWide [] = Unit {0}
AllWide (e ∷ es) = (e.base < 2 ^ 64) × (e.length < 2 ^ 64) × AllWide es

abbrev pub entries_text : List Entry → List ℕ
entries_text [] = []
entries_text (e ∷ es) = entry_text e ++ entries_text es

visit-print_entry :
    (es : List Entry) (total free : ℕ) (s : Console)
    → AllWide es
    → visit print_entry es (some (total, free, s))
      ≡ some (visit add_length es total, visit add_free es free, puts (entries_text es) s)
visit-print_entry [] total free s wide =
    ap (λ (t : Console). some (total, free, t)) (sym (puts_nothing s))
visit-print_entry (e ∷ es) total free s wide =
    let total' = add_length e total in
    let free' = add_free e free in
    rw (print_entry-puts e total free s wide.0 wide.1) (
      visit-print_entry es total' free' (puts (entry_text e) s) wide.2
      ∙ ap (λ (t : Console). some (visit add_length es total', visit add_free es free', t))
          (sym (puts-append (entry_text e) (entries_text es) s)))

-- The lengths of the entries that are available.
abbrev pub sum_free : List Entry → ℕ
sum_free [] = 0
sum_free (e ∷ es) = (if e.kind == 1 then e.length else 0) + sum_free es

visit-add_free :
    (es : List Entry) (free : ℕ)
    → free < 2 ^ 64
    → visit add_free es free ≡ (free + sum_free es) % 2 ^ 64
visit-add_free [] free h = omega (arith, h)
visit-add_free (e ∷ es) free h =
    visit-add_free es (add_free e free) (ground (arith, h)) ∙ ground (arith, h)

abbrev pub totals_text : ℕ → ℕ → List ℕ
totals_text total free =
    codes "Total blocks: "
    ++ (decimal (total / 4096)
        ++ (codes "\nTotal used blocks: "
            ++ (decimal ((total + 2 ^ 64 - free) % 2 ^ 64 / 4096)
                ++ (codes "\nTotal free blocks: " ++ (decimal (free / 4096) ++ codes "\n")))))

abbrev totals_pieces : List Piece
totals_pieces =
    map char (codes "Total blocks: ")
    ++ (conversion long_long b'u'
        ∷ (map char (codes "\nTotal used blocks: ")
            ++ (conversion long_long b'u'
                ∷ (map char (codes "\nTotal free blocks: ")
                    ++ (conversion long_long b'u' ∷ char b'\n' ∷ [])))))

totals_pieces-AllPieces : AllPieces totals_pieces
totals_pieces-AllPieces = omega arith

print_totals-puts :
    (total free : ℕ) (s : Console)
    → total < 2 ^ 64
    → free < 2 ^ 64
    → print_totals total free s ≡ some (puts (totals_text total free) s)
unfolding print_totals
print_totals-puts total free s h k =
    let all = total / 4096 in
    let used = u64 (total + 2 ^ 64 - free) / 4096 in
    let available = free / 4096 in
    let one : low_word all + 2 ^ 32 * high_word all ≡ all = omega (arith, h) in
    let two : low_word used + 2 ^ 32 * high_word used ≡ used = omega arith in
    let three : low_word available + 2 ^ 32 * high_word available ≡ available = omega (arith, k) in
    let args =
      low_word all
      ∷ high_word all
      ∷ low_word used
      ∷ high_word used
      ∷ low_word available
      ∷ high_word available
      ∷ [] in
    let text : render (λ a. []) totals_pieces args ≡ some (totals_text total free) =
      rw (one, two, three) refl in
    printk-render (λ a. []) totals_pieces args s totals_pieces-AllPieces ∙ ap (shown s) text

-- `parse_multiboot_memmap` of a memory map, which the loader gave, whose entries lie one behind
-- the other, with fields of 64 bits: it ends, with one line for each entry, in their order, of its
-- base and length in hexadecimal and its type, and then the numbers of blocks in all entries, in
-- those that are not available and in those that are, from sums up to 64 bits.
pub parse_multiboot_memmap_lem :
    (entries : ℕ → Entry) (info : Info) (es : List Entry) (s : Console)
    → info.mmap_length < 2 ^ 32
    → LaidOut entries info 0 es
    → AllWide es
    → bit_and info.flags 0x40 ≢ 0
    → parse_multiboot_memmap entries info s
      ≡ some
          (puts (entries_text es ++ totals_text (sum_lengths es % 2 ^ 64) (sum_free es % 2 ^ 64)) s)
unfolding parse_multiboot_memmap
parse_multiboot_memmap_lem entries info es s h laid wide flag =
    let known : (bit_and info.flags 0x40 == 0) ≡ false = ground arith in
    let total : visit add_length es 0 ≡ sum_lengths es % 2 ^ 64 =
      omega (arith, visit-add_length es 0, visit-add_length-lt es 0 (omega arith)) in
    let free : visit add_free es 0 ≡ sum_free es % 2 ^ 64 =
      visit-add_free es 0 (omega arith) ∙ omega arith in
    let walked =
      walk_lem print_entry entries info es info.mmap_length 0 (some (0, 0, s)) h (omega arith) laid
      ∙ visit-print_entry es 0 0 s wide in
    rw (known, walked, total, free)
      (print_totals-puts (sum_lengths es % 2 ^ 64) (sum_free es % 2 ^ 64) (puts (entries_text es) s)
          (omega arith) (omega arith)
        ∙ ap some (
            sym (
              puts-append (entries_text es)
                (totals_text (sum_lengths es % 2 ^ 64) (sum_free es % 2 ^ 64)) s)))
