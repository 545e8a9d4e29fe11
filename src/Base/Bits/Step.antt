-- ===== src/Base/Bits/Step.antt =====
-- One binary digit of `|` and `&`: the equations by which every other law goes by induction.
use Prim.Native.Nat.{
  ℕ, zero, suc, ◌+◌, ◌*◌, ◌/◌, ◌%◌, ◌≤◌, bit_and, bit_or, min, max, digits, bit_or-bitwise,
  bit_and-bitwise,
}
use native.Mathlib.Omega.{arith}
use mathlib.Core.Path.{◌≡◌, ◌∙◌, sym, refl}

-- The digits of two words, under any operation on digits.
module _ (rest : ℕ → ℕ) (op : ℕ → ℕ → ℕ) where
  digits-zero : (v fuel : ℕ) → digits rest op fuel 0 v ≡ rest v
  digits-zero v zero = refl
  digits-zero v (suc fuel) = refl

  -- More fuel than digits changes nothing.
  digits-fuel :
      (w v fuel more : ℕ) → w ≤ fuel → w ≤ more → digits rest op fuel w v ≡ digits rest op more w v
  digits-fuel zero v fuel more h k = digits-zero v fuel ∙ sym (digits-zero v more)
  digits-fuel (suc w) v zero more h k = absurd (omega arith)
  digits-fuel (suc w) v (suc fuel) zero h k = absurd (omega arith)
  digits-fuel (suc w) v (suc fuel) (suc more) h k =
      let upper = digits-fuel (suc w / 2) (v / 2) fuel more (omega arith) (omega arith) in
      omega (arith, upper)

  -- The lowest digit, and those above it.
  digits-suc :
      (w v : ℕ)
      → digits rest op (suc w) (suc w) v
        ≡ digits rest op (suc w / 2) (suc w / 2) (v / 2) * 2 + op (suc w % 2) (v % 2)
  digits-suc w v =
      let upper = digits-fuel (suc w / 2) (v / 2) w (suc w / 2) (omega arith) (omega arith) in
      omega (arith, upper)

pub bit_or_step : (w v : ℕ) → bit_or w v ≡ bit_or (w / 2) (v / 2) * 2 + max (w % 2) (v % 2)
bit_or_step zero v = let low = bit_or-bitwise 0 v in omega (arith, low, bit_or-bitwise 0 (v / 2))
bit_or_step (suc w) v =
    let upper = bit_or-bitwise (suc w / 2) (v / 2) in
    omega (arith, upper, bit_or-bitwise (suc w) v, digits-suc (λ y. y) max w v)

pub bit_and_step : (w v : ℕ) → bit_and w v ≡ min (w % 2) (v % 2) + bit_and (w / 2) (v / 2) * 2
bit_and_step zero v = let low = bit_and-bitwise 0 v in omega (arith, low, bit_and-bitwise 0 (v / 2))
bit_and_step (suc w) v =
    let upper = bit_and-bitwise (suc w / 2) (v / 2) in
    omega (arith, upper, bit_and-bitwise (suc w) v, digits-suc (λ y. 0) min w v)

pub zero-bit_and : (v : ℕ) → bit_and 0 v ≡ 0
zero-bit_and v = bit_and-bitwise 0 v

-- The words that `w` bounds have no digit in common with 0, and lose none.
both_with_zero : (bound w : ℕ) → w ≤ bound → (bit_and w 0 ≡ 0) × (bit_or w 0 ≡ w)
both_with_zero bound zero h = (refl, refl)
both_with_zero zero (suc w) h = absurd (omega arith)
both_with_zero (suc bound) (suc w) h =
    let (met, joined) = both_with_zero bound (suc w / 2) (omega arith) in
    (omega (arith, met, bit_and_step (suc w) 0), omega (arith, joined, bit_or_step (suc w) 0))

pub bit_and-zero : (w : ℕ) → bit_and w 0 ≡ 0
bit_and-zero w = (both_with_zero w w (omega arith)).0

pub bit_or-zero : (w : ℕ) → bit_or w 0 ≡ w
bit_or-zero w = (both_with_zero w w (omega arith)).1
