-- ===== src/Printk/Format.antt =====
-- What `printk` prints, against the format read as a list of pieces.
use splongle_os.Base.{
  ℕ, ◌≡◌, ◌≢◌, refl, arith, Option, none, some, List, [], ◌∷◌, Option-cases, inl, inr,
}
use splongle_os.Console.{Console, putc}
use splongle_os.Printk.{
  Length, default, short_short, short, long, long_long, Args, specifier, scan, printk,
}

-- A character that is printed, or a conversion with its length.
pub data Piece : Type 0 where
  char : ℕ → Piece
  conversion : Length → ℕ → Piece

-- How a piece is written in a format.
abbrev pub write_piece : Piece → List ℕ → List ℕ
write_piece (char c) fmt = c ∷ fmt
write_piece (conversion default c) fmt = b'%' ∷ c ∷ fmt
write_piece (conversion short c) fmt = b'%' ∷ b'h' ∷ c ∷ fmt
write_piece (conversion short_short c) fmt = b'%' ∷ b'h' ∷ b'h' ∷ c ∷ fmt
write_piece (conversion long c) fmt = b'%' ∷ b'l' ∷ c ∷ fmt
write_piece (conversion long_long c) fmt = b'%' ∷ b'l' ∷ b'l' ∷ c ∷ fmt

abbrev pub write_format : List Piece → List ℕ
write_format [] = []
write_format (p ∷ pieces) = write_piece p (write_format pieces)

-- The pieces that `write_piece` writes without ambiguity.
abbrev pub IsPiece : Piece → Type 0
IsPiece (char c) = c ≢ b'%'
IsPiece (conversion default c) = (c ≢ b'h') × (c ≢ b'l')
IsPiece (conversion short c) = c ≢ b'h'
IsPiece (conversion short_short c) = Unit {0}
IsPiece (conversion long c) = c ≢ b'l'
IsPiece (conversion long_long c) = Unit {0}

abbrev pub AllPieces : List Piece → Type 0
AllPieces [] = Unit {0}
AllPieces (p ∷ pieces) = IsPiece p × AllPieces pieces

module _ (strings : ℕ → List ℕ) where
  -- The pieces one after the other, each with the arguments that those before it leave.
  abbrev pub perform : List Piece → Args → Console → Option Console
  perform [] args s = some s
  perform (char c ∷ pieces) args s = perform pieces args (putc c s)
  perform (conversion len c ∷ pieces) args s = elim (specifier strings c len args s) [
    | none ↦ none
    | some (rest, t) ↦ perform pieces rest t
  ]

  -- `printk` with a format that is written from a list of pieces (characters other than %, and
  -- conversions with a length, none of which can be read as another) performs the pieces in
  -- order, each with the arguments that those before it leave; a read past the arguments is one
  -- in both.
  pub printk_pieces :
      (pieces : List Piece) (args : Args) (s : Console)
      → AllPieces pieces
      → printk strings (write_format pieces) args s ≡ perform pieces args s
  unfolding printk scan
  printk_pieces [] args s h = refl
  printk_pieces (char c ∷ pieces) args s h =
      ground (arith, h.0, printk_pieces pieces args (putc c s) h.1)
  printk_pieces (conversion default c ∷ pieces) args s h =
      elim (Option-cases (specifier strings c default args s)) [
        | inl e ↦ ground arith
        | inr ((rest, t), e) ↦ ground (arith, h.0, printk_pieces pieces rest t h.1)
      ]
  printk_pieces (conversion len c ∷ pieces) args s h =
      elim (Option-cases (specifier strings c len args s)) [
        | inl e ↦ ground (arith, h.0)
        | inr ((rest, t), e) ↦ ground (arith, h.0, printk_pieces pieces rest t h.1)
      ]
