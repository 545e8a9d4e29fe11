-- ===== src/Printk/Decimal.antt =====
-- The texts of numbers, as `puts` prints them.
use native.Mathlib.Nat.{mod-lt}
use splongle_os.Base.{
  ℕ, zero, suc, ◌/◌, ◌%◌, ◌^◌, ◌≤◌, ◌<◌, ◌≡◌, refl, arith, Bool-cases, inl, inr, true, List, [],
  ◌∷◌, ◌++◌, ltb, leb, if◌then◌else◌, length, get_or, all_below, all_below_sound,
}
use splongle_os.Console.Cursor.{IsPlain}
use splongle_os.Console.Text.{AllPlain}
use splongle_os.Printk.{hex_chars, convert, extend}
use splongle_os.Printk.Render.{number_text}
use splongle_os.Printk.Digits.{length-convert}

abbrev pub decimal : ℕ → List ℕ
decimal n = convert 64 n 10 []

-- A decimal number of at least two digits, with a leading zero if it needs one.
abbrev pub two_digits : ℕ → List ℕ
two_digits n = if leb 10 n then decimal n else b'0' ∷ decimal n

hex_chars-IsPlain : (d : ℕ) → d < 16 → IsPlain (get_or hex_chars d 0)
hex_chars-IsPlain d h =
    let table =
      all_below_sound 16 (λ x. leb b'0' (get_or hex_chars x 0)) d (unfold all_below in refl) h in
    ground (arith, table)

convert-AllPlain :
    (fuel number radix : ℕ) (buffer : List ℕ)
    → 1 ≤ radix
    → radix ≤ 16
    → AllPlain buffer
    → AllPlain (convert fuel number radix buffer)
unfolding convert
convert-AllPlain zero number radix buffer h k plain = plain
convert-AllPlain (suc fuel) number radix buffer h k plain =
    let digit =
      hex_chars-IsPlain (number % radix)
        (omega (arith, mod-lt number {m = radix} (omega (arith, h)), k)) in
    elim (Bool-cases (ltb 0 (number / radix))) [
      | inl more ↦
          rw (more, convert)
            (convert-AllPlain fuel (number / radix) radix
              (get_or hex_chars (number % radix) 0 ∷ buffer) h k (digit, plain))
      | inr done ↦ rw (done, convert) (digit, plain)
    ]

pub AllPlain-append : (a b : List ℕ) → AllPlain a → AllPlain b → AllPlain (a ++ b)
AllPlain-append [] b h k = k
AllPlain-append (c ∷ a) b h k = (h.0, AllPlain-append a b h.1 k)

pub decimal-AllPlain : (n : ℕ) → AllPlain (decimal n)
decimal-AllPlain n = convert-AllPlain 64 n 10 [] (omega arith) (omega arith) tt

pub length-decimal : (n k : ℕ) → n < 10 ^ suc k → length (decimal n) ≤ suc k
length-decimal n k h = omega (arith, length-convert 64 k n 10 [] h (omega arith))

-- `%d` of a number that is not negative.
pub number_text-extend : (n : ℕ) → n < 2 ^ 31 → number_text true 10 (extend n) ≡ decimal n
number_text-extend n h = ground (arith, h)
