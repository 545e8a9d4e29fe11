-- ===== src/Boot/Welcome.antt =====
-- The first messages on the screen.
use splongle_os.Base.{
  codes, ℕ, ◌≡◌, refl, arith, Bool-cases, inl, inr, some, List, [], ◌∷◌, ◌++◌, map, ◌==◌,
  if◌then◌else◌,
}
use splongle_os.Console.{Console, clrscr, puts}
use splongle_os.Printk.{default, convert}
use splongle_os.Printk.Format.{Piece, char, conversion, AllPieces}
use splongle_os.Printk.Render.{printk-render, printk-IsText}
use splongle_os.Boot.{multiboot_bootloader_magic, welcome}

abbrev pub welcome_text : ℕ → List ℕ
welcome_text magic =
    if magic == multiboot_bootloader_magic
    then codes "Booted by Multiboot (magic ok)\n"
    else codes "Not booted by Multiboot: magic=0x" ++ (convert 64 magic 16 [] ++ codes "\n")

abbrev wrong_pieces : List Piece
wrong_pieces =
    map char (codes "Not booted by Multiboot: magic=0x")
    ++ (conversion default b'x' ∷ char b'\n' ∷ [])

wrong_pieces-AllPieces : AllPieces wrong_pieces
wrong_pieces-AllPieces = omega arith

-- The messages return, with the magic number in hexadecimal if it is not the boot loader's.
pub welcome-puts :
    (magic : ℕ) (s : Console)
    → welcome magic s ≡ some (puts (welcome_text magic) (puts (codes "\n") (clrscr s)))
unfolding welcome
welcome-puts magic s =
    let t = puts (codes "\n") (clrscr s) in
    let first = printk-IsText (λ a. []) (codes "\n") [] (clrscr s) (omega arith) in
    let ok =
      printk-IsText (λ a. []) (codes "Booted by Multiboot (magic ok)\n") [] t (omega arith) in
    let wrong = printk-render (λ a. []) wrong_pieces (magic ∷ []) t wrong_pieces-AllPieces in
    elim (Bool-cases (magic == multiboot_bootloader_magic)) [
      | inl e ↦ rw (first, e, ok) refl
      | inr e ↦ rw (first, e, wrong) refl
    ]
