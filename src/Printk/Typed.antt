-- ===== src/Printk/Typed.antt =====
-- The words that a format takes from the stack, and that a call of `printk` that passes them is safe.
use splongle_os.Base.{
  ℕ, ◌+◌, ◌≡◌, arith, ◌∙◌, ap, Option, none, some, List, [], ◌∷◌, Option-cases, inl, inr, Bool,
  true, false, ◌||◌, leb, ◌==◌, if◌then◌else◌, length, drop, length-drop,
}
use splongle_os.Console.{Console, putc}
use splongle_os.Printk.{
  Length, default, short_short, short, long, long_long, Args, print_number, specifier, printk,
}
use splongle_os.Printk.Format.{
  Piece, char, conversion, write_format, AllPieces, perform, printk_pieces,
}

-- A number of `long long` is two words, any other one.
abbrev pub number_words : Length → ℕ
number_words long_long = 2
number_words _ = 1

abbrev pub is_number : ℕ → Bool
is_number c =
    (c == b'd')
    || (c == b'i')
    || (c == b'u')
    || (c == b'X')
    || (c == b'x')
    || (c == b'p')
    || (c == b'o')

-- The words of a conversion: a character and a string take one, `%%` and an unknown letter none.
abbrev pub words : Length → ℕ → ℕ
words len c = if (c == b'c') || (c == b's') then 1 else if is_number c then number_words len else 0

-- The types of the arguments that a format wants, as words.
abbrev pub wanted : List Piece → ℕ
wanted [] = 0
wanted (char c ∷ pieces) = wanted pieces
wanted (conversion len c ∷ pieces) = words len c + wanted pieces

-- What a conversion leaves of the arguments; none if it reads past them.
abbrev pub left : Option (Args × Console) → Option Args
left none = none
left (some (args, s)) = some args

-- The first `n` words are taken, if there are as many.
abbrev pub take_words : ℕ → Args → Option Args
take_words n args = if leb n (length args) then some (drop n args) else none

-- Whether a call has stayed within its arguments.
abbrev pub is_printed : Option Console → Bool
is_printed none = false
is_printed (some s) = true

module _ (strings : ℕ → List ℕ) where
  print_number-left :
      (sign : Bool) (radix : ℕ) (len : Length) (args : Args) (s : Console)
      → left (print_number sign radix len args s) ≡ take_words (number_words len) args
  print_number-left sign radix long_long (lo ∷ hi ∷ args) s = ground arith
  print_number-left sign radix long_long (lo ∷ []) s = ground arith
  print_number-left sign radix long_long [] s = ground arith
  print_number-left sign radix default (w ∷ args) s = ground arith
  print_number-left sign radix default [] s = ground arith
  print_number-left sign radix short (w ∷ args) s = ground arith
  print_number-left sign radix short [] s = ground arith
  print_number-left sign radix short_short (w ∷ args) s = ground arith
  print_number-left sign radix short_short [] s = ground arith
  print_number-left sign radix long (w ∷ args) s = ground arith
  print_number-left sign radix long [] s = ground arith

  specifier-left :
      (len : Length) (c : ℕ) (args : Args) (s : Console)
      → left (specifier strings c len args s) ≡ take_words (words len c) args
  unfolding specifier
  specifier-left len c [] s =
      let number : (sign : Bool) (radix : ℕ)
          → left (print_number sign radix len [] s) ≡ take_words (number_words len) [] =
        λ sign radix. print_number-left sign radix len [] s in
      ground (arith, number true 10, number false 10, number false 16, number false 8)
  specifier-left len c (w ∷ args) s =
      let number : (sign : Bool) (radix : ℕ)
          → left (print_number sign radix len (w ∷ args) s)
            ≡ take_words (number_words len) (w ∷ args) =
        λ sign radix. print_number-left sign radix len (w ∷ args) s in
      ground (arith, number true 10, number false 10, number false 16, number false 8)

  -- Both directions for the pieces: with enough words the console is printed, without not.
  perform-wanted :
      (pieces : List Piece) (args : Args) (s : Console)
      → is_printed (perform strings pieces args s) ≡ leb (wanted pieces) (length args)
  perform-wanted [] args s = ground arith
  perform-wanted (char c ∷ pieces) args s = perform-wanted pieces args (putc c s)
  perform-wanted (conversion len c ∷ pieces) args s =
      let taken = specifier-left len c args s in
      elim (Option-cases (specifier strings c len args s)) [
        | inl e ↦ ground arith
        | inr ((rest, t), e) ↦
            let rest_words = perform-wanted pieces rest t in
            ground (arith, length-drop (words len c) args)
      ]

  -- A format that is written from a list of pieces, none of which can be read as another, has a
  -- type: the number of words that its conversions want. `printk` with it returns exactly if it
  -- is passed at least as many; with fewer it reads past its arguments.
  pub printk-wanted :
      (pieces : List Piece) (args : Args) (s : Console)
      → AllPieces pieces
      → is_printed (printk strings (write_format pieces) args s) ≡ leb (wanted pieces) (length args)
  printk-wanted pieces args s h =
      ap is_printed (printk_pieces strings pieces args s h) ∙ perform-wanted pieces args s
