-- ===== src/Printk/Examples.antt =====
-- A format with text and conversions, and the claims about it.
use splongle_os.Base.{◌≤◌, ◌≡◌, arith, List, [], leb, ◌∷◌, length}
use splongle_os.Console.{Console}
use splongle_os.Printk.{convert, default, long_long, printk}
use splongle_os.Printk.Digits.{parse, convert_lem}
use splongle_os.Printk.Render.{shown, render, printk-render}
use splongle_os.Printk.Typed.{is_printed, wanted, printk-wanted}
use splongle_os.Printk.Format.{Piece, char, conversion, write_format, perform, printk_pieces}

convert_lem_example :
    (parse 16 0 (convert 64 0xBEEF 16 []) ≡ 0xBEEF) × (length (convert 64 0xBEEF 16 []) ≤ 22)
convert_lem_example = convert_lem 0xBEEF 16 (omega arith) (omega arith) (omega arith)

-- `"n=%llx%d"`
abbrev pieces : List Piece
pieces = char b'n' ∷ char b'=' ∷ conversion long_long b'x' ∷ conversion default b'd' ∷ []

abbrev console : Console
console = record { screen = λ o. 0; x = 0; y = 0; color = 0x0F; bus = [] }

printk_pieces_example :
    printk (λ a. []) (write_format pieces) (1 ∷ 0 ∷ 7 ∷ []) console
    ≡ perform (λ a. []) pieces (1 ∷ 0 ∷ 7 ∷ []) console
printk_pieces_example =
    printk_pieces (λ a. []) pieces (1 ∷ 0 ∷ 7 ∷ []) console
      (omega arith, (omega arith, (tt, ((omega arith, omega arith), tt))))

printk-wanted_example :
    is_printed (printk (λ a. []) (write_format pieces) (1 ∷ 0 ∷ []) console) ≡ leb (wanted pieces) 2
printk-wanted_example =
    printk-wanted (λ a. []) pieces (1 ∷ 0 ∷ []) console
      (omega arith, (omega arith, (tt, ((omega arith, omega arith), tt))))

printk-render_example :
    printk (λ a. []) (write_format pieces) (1 ∷ 0 ∷ 7 ∷ []) console
    ≡ shown console (render (λ a. []) pieces (1 ∷ 0 ∷ 7 ∷ []))
printk-render_example =
    printk-render (λ a. []) pieces (1 ∷ 0 ∷ 7 ∷ []) console
      (omega arith, (omega arith, (tt, ((omega arith, omega arith), tt))))
