-- ===== src/Printk/Render.antt =====
-- The text that a call of `printk` stands for: what it prints does not depend on the screen.
use splongle_os.Base.{
  ℕ, ◌-◌, ◌%◌, ◌^◌, ◌≡◌, ◌≢◌, refl, sym, arith, ◌∙◌, ap, Option, none, some, List, [], ◌∷◌, ◌++◌,
  Option-cases, inl, inr, Bool, true, false, ◌||◌, ◌&&◌, leb, ◌==◌, if◌then◌else◌, u8,
}
use splongle_os.Console.{Console, putc, puts}
use splongle_os.Console.Text.{puts_nothing, puts_next, puts-append}
use splongle_os.Printk.{
  Length, Args, convert, next_number, print_number, printk_signed, printk_unsigned, specifier, scan,
  printk,
}
use splongle_os.Printk.Format.{
  Piece, char, conversion, write_format, AllPieces, perform, printk_pieces,
}

-- A number with its sign.
abbrev pub number_text : Bool → ℕ → ℕ → List ℕ
number_text sign radix n =
    if sign && leb (2 ^ 63) n
    then b'-' ∷ convert 64 ((2 ^ 64 - n) % 2 ^ 64) radix []
    else convert 64 n radix []

abbrev pub render_number : Bool → ℕ → Length → Args → Option (Args × List ℕ)
render_number sign radix len args = elim (next_number sign len args) [
  | none ↦ none
  | some (n, rest) ↦ some (rest, number_text sign radix n)
]

-- A text that is printed, with the arguments that are left.
abbrev put_text : Console → Option (Args × List ℕ) → Option (Args × Console)
put_text s none = none
put_text s (some (rest, str)) = some (rest, puts str s)

abbrev pub shown : Console → Option (List ℕ) → Option Console
shown s none = none
shown s (some str) = some (puts str s)

abbrev pub before : List ℕ → Option (List ℕ) → Option (List ℕ)
before str none = none
before str (some rest) = some (str ++ rest)

module _ (strings : ℕ → List ℕ) where
  -- The text of a conversion.
  abbrev pub render_conversion : Length → ℕ → Args → Option (Args × List ℕ)
  render_conversion len c args =
      if c == b'c'
      then (elim args [ [] ↦ none | w ∷ rest ↦ some (rest, u8 w ∷ []) ])
      else if c == b's'
      then (elim args [ [] ↦ none | w ∷ rest ↦ some (rest, strings w) ])
      else if c == b'%'
      then some (args, b'%' ∷ [])
      else if (c == b'd') || (c == b'i')
      then render_number true 10 len args
      else if c == b'u'
      then render_number false 10 len args
      else if (c == b'X') || ((c == b'x') || (c == b'p'))
      then render_number false 16 len args
      else if c == b'o'
      then render_number false 8 len args
      else some (args, [])

  abbrev pub render : List Piece → Args → Option (List ℕ)
  render [] args = some []
  render (char c ∷ pieces) args = before (c ∷ []) (render pieces args)
  render (conversion len c ∷ pieces) args = elim (render_conversion len c args) [
    | none ↦ none
    | some (rest, str) ↦ before str (render pieces rest)
  ]

  print_number-render :
      (sign : Bool) (radix : ℕ) (len : Length) (args : Args) (s : Console)
      → print_number sign radix len args s ≡ put_text s (render_number sign radix len args)
  unfolding printk_signed printk_unsigned
  print_number-render sign radix len args s = elim (Option-cases (next_number sign len args)) [
    | inl e ↦ ground arith
    | inr ((n, rest), e) ↦
        ground (arith, puts_next b'-' (convert 64 ((2 ^ 64 - n) % 2 ^ 64) radix []) s)
  ]

  specifier-render :
      (len : Length) (c : ℕ) (args : Args) (s : Console)
      → specifier strings c len args s ≡ put_text s (render_conversion len c args)
  unfolding specifier
  specifier-render len c [] s =
      let number : (sign : Bool) (radix : ℕ)
          → print_number sign radix len [] s ≡ put_text s (render_number sign radix len []) =
        λ sign radix. print_number-render sign radix len [] s in
      ground (
        arith,
        number true 10,
        number false 10,
        number false 16,
        number false 8,
        puts_nothing s,
        puts_next b'%' [] s,
        puts_nothing (putc b'%' s),
      )
  specifier-render len c (w ∷ args) s =
      let number : (sign : Bool) (radix : ℕ)
          → print_number sign radix len (w ∷ args) s
            ≡ put_text s (render_number sign radix len (w ∷ args)) =
        λ sign radix. print_number-render sign radix len (w ∷ args) s in
      ground (
        arith,
        number true 10,
        number false 10,
        number false 16,
        number false 8,
        puts_nothing s,
        puts_next b'%' [] s,
        puts_nothing (putc b'%' s),
        puts_next (u8 w) [] s,
        puts_nothing (putc (u8 w) s),
      )

  shown-before :
      (a : List ℕ) (b : Option (List ℕ)) (s : Console) → shown s (before a b) ≡ shown (puts a s) b
  shown-before a none s = refl
  shown-before a (some b) s = ap some (puts-append a b s)

  perform-render :
      (pieces : List Piece) (args : Args) (s : Console)
      → perform strings pieces args s ≡ shown s (render pieces args)
  perform-render [] args s = ap some (sym (puts_nothing s))
  perform-render (char c ∷ pieces) args s =
      let one : puts (c ∷ []) s ≡ putc c s = puts_next c [] s ∙ puts_nothing (putc c s) in
      perform-render pieces args (putc c s)
      ∙ sym (rw (sym one) (shown-before (c ∷ []) (render pieces args) s))
  perform-render (conversion len c ∷ pieces) args s =
      elim (Option-cases (render_conversion len c args)) [
        | inl e ↦ ground (arith, specifier-render len c args s)
        | inr ((rest, str), e) ↦ ground (
          arith,
          specifier-render len c args s,
          perform-render pieces rest (puts str s),
          shown-before str (render pieces rest) s,
        )
      ]

  -- `printk` with a format that is written from a list of pieces (characters other than %, and
  -- conversions with a length, none of which can be read as another) prints the text that the
  -- pieces and the arguments stand for, which does not depend on the screen: each conversion
  -- takes its words from the arguments that those before it leave, and stands for a character, a
  -- string or a number in its radix; it reads past the arguments where the text does.
  pub printk-render :
      (pieces : List Piece) (args : Args) (s : Console)
      → AllPieces pieces
      → printk strings (write_format pieces) args s ≡ shown s (render pieces args)
  printk-render pieces args s h =
      printk_pieces strings pieces args s h ∙ perform-render pieces args s

-- No character of the format begins a conversion.
abbrev pub IsText : List ℕ → Type 0
IsText [] = Unit {0}
IsText (c ∷ str) = (c ≢ b'%') × IsText str

-- A format without conversions is printed as it is.
pub printk-IsText :
    (strings : ℕ → List ℕ) (str args : List ℕ) (s : Console)
    → IsText str
    → printk strings str args s ≡ some (puts str s)
unfolding printk scan
printk-IsText strings [] args s h = ap some (sym (puts_nothing s))
printk-IsText strings (c ∷ str) args s h =
    ground (arith, h.0, printk-IsText strings str args (putc c s) h.1, puts_next c str s)
