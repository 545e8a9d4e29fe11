-- ===== src/Printk.antt =====
-- src/kernel/stdio.c, its second half: `printk` and the printing of numbers.
pub mod Digits
pub mod Format
pub mod Typed
pub mod Decimal
pub mod Render
mod Examples
use splongle_os.Base.{
  ℕ, zero, suc, ◌+◌, ◌-◌, ◌*◌, ◌/◌, ◌%◌, ◌^◌, Bool, true, false, Option, none, some, List, [], ◌∷◌,
  ◌&&◌, ◌||◌, ltb, leb, ◌==◌, if◌then◌else◌, u8, get_or,
}
use splongle_os.Console.{Console, putc, puts}

-- `g_HexChars`
abbrev pub hex_chars : List ℕ
hex_chars =
    b'0' ∷ b'1' ∷ b'2' ∷ b'3' ∷ b'4' ∷ b'5' ∷ b'6' ∷ b'7' ∷ b'8' ∷ b'9' ∷ b'a' ∷ b'b' ∷ b'c' ∷ b'd'
    ∷ b'e' ∷ b'f' ∷ []

-- The first loop: `buffer` holds what is written so far, the last character first, which is the
-- order in which the second loop prints. A number below `2 ^ 64` needs at most 64 rounds.
pub convert : ℕ → ℕ → ℕ → List ℕ → List ℕ
convert zero number radix buffer = buffer
convert (suc fuel) number radix buffer =
    let buffer' = get_or hex_chars (number % radix) 0 ∷ buffer in
    elim (ltb 0 (number / radix)) [
      | true ↦ convert fuel (number / radix) radix buffer'
      | false ↦ buffer'
    ]

pub printk_unsigned : ℕ → ℕ → Console → Console
printk_unsigned number radix s = puts (convert 64 number radix []) s

-- `number` is the 64-bit pattern of a `signed long long`.
pub printk_signed : ℕ → ℕ → Console → Console
printk_signed number radix s =
    if leb (2 ^ 63) number
    then printk_unsigned ((2 ^ 64 - number) % 2 ^ 64) radix (putc b'-' s)
    else printk_unsigned number radix s

-- The values of `state`. The labels `PRINTF_LENGTH_SHORT` and `PRINTF_LENGTH_LONG` of the switch are
-- the numbers 2 and 3 of the states `PRINTF_STATE_LENGTH_SHORT` and `PRINTF_STATE_LENGTH_LONG`.
pub data State : Type 0 where
  normal length length_short length_long spec : State

pub data Length : Type 0 where
  default short_short short long long_long : Length

-- The arguments, as the 32-bit words of the stack.
abbrev pub Args : Type 0
Args = List ℕ

-- Sign extension of an `int` to 64 bits.
abbrev pub extend : ℕ → ℕ
extend w = if leb (2 ^ 31) w then w + (2 ^ 64 - 2 ^ 32) else w

-- `va_arg` of an integer, as 64 bits; `none` is a read past the arguments, which C leaves undefined.
abbrev pub next_number : Bool → Length → Args → Option (ℕ × Args)
next_number sign long_long (lo ∷ hi ∷ args) = some (lo + 2 ^ 32 * hi, args)
next_number sign long_long _ = none
next_number sign _ (w ∷ args) = some (if sign then extend w else w, args)
next_number sign _ [] = none

abbrev pub print_number : Bool → ℕ → Length → Args → Console → Option (Args × Console)
print_number sign radix len args s = elim (next_number sign len args) [
  | none ↦ none
  | some (n, rest) ↦
      some (rest, if sign then printk_signed n radix s else printk_unsigned n radix s)
]

-- `strings p` is the text at address `p`, up to its end.
module _ (strings : ℕ → List ℕ) where
  -- The state `PRINTF_STATE_SPEC`. Its variables `radix`, `sign` and `number` are set anew on every
  -- way out, so they always have their first values on entry.
  pub specifier : ℕ → Length → Args → Console → Option (Args × Console)
  specifier c len args s =
      if c == b'c'
      then (elim args [ [] ↦ none | w ∷ rest ↦ some (rest, putc (u8 w) s) ])
      else if c == b's'
      then (elim args [ [] ↦ none | w ∷ rest ↦ some (rest, puts (strings w) s) ])
      else if c == b'%'
      then some (args, putc b'%' s)
      else if (c == b'd') || (c == b'i')
      then print_number true 10 len args s
      else if c == b'u'
      then print_number false 10 len args s
      else if (c == b'X') || ((c == b'x') || (c == b'p'))
      then print_number false 16 len args s
      else if c == b'o'
      then print_number false 8 len args s
      else some (args, s)

  -- The loop over the format, with the state of the scanner.
  pub scan : List ℕ → State → Length → Args → Console → Option Console
  scan [] state len args s = some s
  scan (c ∷ fmt) state len args s =
      let print_spec : Option Console = elim (specifier c len args s) [
        | none ↦ none
        | some (rest, t) ↦ scan fmt normal default rest t
      ] in
      elim state [
        | normal ↦ elim (c == b'%') [
          | true ↦ scan fmt length len args s
          | false ↦ scan fmt normal len args (putc c s)
        ]
        | length ↦ elim (c == b'h') [
          | true ↦ scan fmt length_short short args s
          | false ↦ elim (c == b'l') [
            | true ↦ scan fmt length_long long args s
            | false ↦ print_spec
          ]
        ]
        | length_short ↦ elim (c == b'h') [
          | true ↦ scan fmt spec short_short args s
          | false ↦ print_spec
        ]
        | length_long ↦ elim (c == b'l') [
          | true ↦ scan fmt spec long_long args s
          | false ↦ print_spec
        ]
        | spec ↦ print_spec
      ]

  pub printk : List ℕ → Args → Console → Option Console
  printk fmt args s = scan fmt normal default args s
