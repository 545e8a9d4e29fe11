-- ===== src/Memmap/Print/Blocks.antt =====
-- What `get_block_info` and `print_mem` print.
use splongle_os.Base.{
  codes, ℕ, ◌^◌, ◌<◌, ◌≤◌, length, ◌≡◌, refl, arith, some, List, [], ◌∷◌, ◌++◌, map, length-append,
}
use splongle_os.Console.{Console, puts}
use splongle_os.Console.Place.{move, IsShown, move-puts}
use splongle_os.Console.Cursor.{IsValid}
use splongle_os.Console.Text.{AllPlain}
use splongle_os.Printk.{default}
use splongle_os.Printk.Format.{Piece, char, conversion, AllPieces}
use splongle_os.Printk.Render.{printk-render}
use splongle_os.Printk.Decimal.{decimal, decimal-AllPlain, AllPlain-append, length-decimal}
use splongle_os.Pmm.{Pmm}
use splongle_os.Memmap.Print.{get_block_info, print_mem}

abbrev pub block_info_text : Pmm → List ℕ
block_info_text p =
    codes "Total blocks: "
    ++ (decimal p.max_blocks ++ (codes ", Used blocks: " ++ (decimal p.used_blocks ++ [])))

abbrev block_info_pieces : List Piece
block_info_pieces =
    map char (codes "Total blocks: ")
    ++ (conversion default b'u'
        ∷ (map char (codes ", Used blocks: ") ++ (conversion default b'u' ∷ [])))

block_info_pieces-AllPieces : AllPieces block_info_pieces
block_info_pieces-AllPieces = omega arith

get_block_info-puts :
    (p : Pmm) (s : Console) → get_block_info p s ≡ some (puts (block_info_text p) s)
unfolding get_block_info
get_block_info-puts p s =
    printk-render (λ a. []) block_info_pieces (p.max_blocks ∷ p.used_blocks ∷ []) s
      block_info_pieces-AllPieces

block_info_text-AllPlain : (p : Pmm) → AllPlain (block_info_text p)
block_info_text-AllPlain p = AllPlain-append (codes "Total blocks: ") _ (omega arith) (
    AllPlain-append (decimal p.max_blocks) _ (decimal-AllPlain p.max_blocks) (
      AllPlain-append (codes ", Used blocks: ") _ (omega arith)
        (AllPlain-append (decimal p.used_blocks) [] (decimal-AllPlain p.used_blocks) tt)))

-- `print_mem` with both counters below 2^32 and the cursor on the screen: the number of blocks and
-- that of the used ones stand in the upper left corner, no other cell changes, those behind the
-- text included, and the cursor is where it was, on the screen and in the CRT controller.
pub print_mem-IsShown :
    (p : Pmm) (s : Console)
    → p.max_blocks < 2 ^ 32
    → p.used_blocks < 2 ^ 32
    → IsValid s
    → (u : Console) × (print_mem p s ≡ some u) × IsShown s u 0 (block_info_text p)
unfolding print_mem
print_mem-IsShown p s h k v =
    let str = block_info_text p in
    let here = move 0 0 s in
    let max = length-decimal p.max_blocks 9 (omega (arith, h)) in
    let used = length-decimal p.used_blocks 9 (omega (arith, k)) in
    let rest = decimal p.used_blocks ++ [] in
    let end = length-append (decimal p.used_blocks) [] in
    let middle = length-append (decimal p.max_blocks) (codes ", Used blocks: " ++ rest) in
    let short : length str ≤ 49 = omega (arith, max, used, end, middle) in
    (
      move s.x s.y (puts str here),
      rw (get_block_info-puts p here) refl,
      move-puts 0 0 str s v (omega arith) (omega arith) (block_info_text-AllPlain p)
          (omega (arith, short)),
    )
