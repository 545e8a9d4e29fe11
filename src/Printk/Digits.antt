-- ===== src/Printk/Digits.antt =====
-- The digits that `printk_unsigned` prints.
use native.Mathlib.Nat.{
  pow-suc, pow-zero, pow-le-pow_left, div-add-mod', mod-lt, div-eq_of_lt, div-lt_iff_lt-mul,
}
use splongle_os.Base.{
  ℕ, zero, suc, ◌+◌, ◌-◌, ◌*◌, ◌/◌, ◌%◌, ◌^◌, ◌≤◌, ◌<◌, ◌≡◌, refl, arith, ◌∙◌, ap, Bool-cases, inl,
  inr, List, [], ◌∷◌, ltb, leb, ◌==◌, if◌then◌else◌, length, get_or, all_below, all_below_sound,
}
use splongle_os.Printk.{hex_chars, convert}

-- The value of a digit, and of a text of digits read from the left.
abbrev pub digit_value : ℕ → ℕ
digit_value c = if leb c b'9' then c - b'0' else c - b'a' + 10

abbrev pub parse : ℕ → ℕ → List ℕ → ℕ
parse radix acc [] = acc
parse radix acc (c ∷ digits) = parse radix (acc * radix + digit_value c) digits

digit_value-hex_chars : (d : ℕ) → d < 16 → digit_value (get_or hex_chars d 0) ≡ d
digit_value-hex_chars d h =
    let table = all_below_sound 16 (λ x. digit_value (get_or hex_chars x 0) == x) d in
    ground (arith, table (unfold all_below in refl) h)

div-lt : (n radix bound : ℕ) → 2 ≤ radix → n < 2 * bound → n / radix < bound
div-lt n radix bound l h = let whole = div-add-mod' n radix in grind (arith, whole)

parse-convert :
    (fuel number radix : ℕ) (buffer : List ℕ)
    → number < 2 ^ fuel
    → 2 ≤ radix
    → radix ≤ 16
    → parse radix 0 (convert fuel number radix buffer) ≡ parse radix number buffer
unfolding convert
parse-convert zero number radix buffer h l m = let e : number ≡ 0 = omega arith in rw e
parse-convert (suc fuel) number radix buffer h l m =
    let digit =
      digit_value-hex_chars (number % radix)
        (omega (arith, mod-lt number {m = radix} (omega arith))) in
    let whole = div-add-mod' number radix in
    elim (Bool-cases (ltb 0 (number / radix))) [
      | inl more ↦
          rw (more, convert)
            (parse-convert fuel (number / radix) radix
                (get_or hex_chars (number % radix) 0 ∷ buffer)
                (div-lt number radix (2 ^ fuel) l (omega (arith, pow-suc 2 fuel))) l m
              ∙ ap (λ (v : ℕ). parse radix v buffer) (omega (arith, digit, whole)))
      | inr done ↦
          rw (done, convert)
            (ap (λ (v : ℕ). parse radix v buffer)
              (let none_left : number / radix ≡ 0 = ground arith in
                omega (arith, digit, whole, ap (λ (q : ℕ). q * radix) none_left)))
    ]

pub length-convert :
    (fuel k number radix : ℕ) (buffer : List ℕ)
    → number < radix ^ suc k
    → 2 ≤ radix
    → length (convert fuel number radix buffer) ≤ length buffer + suc k
unfolding convert
length-convert zero k number radix buffer h l = omega arith
length-convert (suc fuel) zero number radix buffer h l =
    let one : radix ^ 0 ≡ 1 = pow-zero radix in
    let first_power : radix ^ 0 * radix ≡ radix = rw one (omega arith) in
    let last : number / radix ≡ 0 = div-eq_of_lt (omega (arith, h, pow-suc radix 0, first_power)) in
    rw (last, convert) (omega arith)
length-convert (suc fuel) (suc k) number radix buffer h l =
    let fewer : number / radix < radix ^ suc k =
      (div-lt_iff_lt-mul {k = radix} {x = number} {y = radix ^ suc k} (omega (arith, l))).1
        (omega (arith, h, pow-suc radix (suc k))) in
    let buffer' = get_or hex_chars (number % radix) 0 ∷ buffer in
    elim (Bool-cases (ltb 0 (number / radix))) [
      | inl more ↦
          rw (more, convert)
            (omega (arith, length-convert fuel k (number / radix) radix buffer' fewer l))
      | inr done ↦ rw (done, convert) (omega arith)
    ]

-- The digits that are printed for a number of 64 bits in a radix from 8 to 16, read back in that
-- radix, are that number, and there are at most 22 of them, fewer than the 32 bytes of the buffer.
pub convert_lem :
    (number radix : ℕ)
    → number < 2 ^ 64
    → 8 ≤ radix
    → radix ≤ 16
    → (parse radix 0 (convert 64 number radix []) ≡ number)
      × (length (convert 64 number radix []) ≤ 22)
convert_lem number radix h l m = (
  parse-convert 64 number radix [] h (omega arith) m,
  length-convert 64 21 number radix [] (omega (arith, pow-le-pow_left l 22)) (omega arith),
)
