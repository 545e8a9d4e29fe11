-- ===== src/Base/Bits.antt =====
-- Single bits of a word, and what the operators of C do to each of them, at every width.
mod Step
pub use Step.{bit_or_step, bit_and_step, bit_and-zero, bit_or-zero, zero-bit_and}
use Prim.Native.Nat.{
  ℕ, zero, suc, ◌+◌, ◌-◌, ◌*◌, ◌/◌, ◌%◌, ◌^◌, ◌≤◌, ◌<◌, min, max, bit_and, bit_or,
}
use mathlib.Core.Path.{◌≡◌, refl, ap}
use native.Mathlib.Nat.{pow-suc, one-le-pow, pow-le-pow_right, div-add-mod', mod-lt}
use native.Mathlib.Omega.{arith}
use splongle_os.Base.Tests.{◌==◌, if◌then◌else◌}

-- bit `k` of `w`, as 0 or 1
unfoldable pub bit : ℕ → ℕ → ℕ
bit zero w = w % 2
bit (suc k) w = bit k (w / 2)

pub two_pow_pos : (k : ℕ) → 0 < 2 ^ k
two_pow_pos k = one-le-pow k 2 (omega arith)

pub two_pow-le : (k n : ℕ) → k ≤ n → 2 ^ k ≤ 2 ^ n
two_pow-le k n h = pow-le-pow_right (omega arith) h

pub two_pow-lt : (k n : ℕ) → k < n → 2 ^ k < 2 ^ n
two_pow-lt k n h =
    let up : 2 ^ suc k ≤ 2 ^ n = pow-le-pow_right (omega arith) h in
    omega (arith, up, pow-suc 2 k, two_pow_pos k)

-- A shift of 1, as the source writes a single bit.
pub one_shl : (k : ℕ) → 1 * 2 ^ k ≡ 2 ^ k
one_shl k = omega arith

pub bit-lt_two : (k w : ℕ) → bit k w < 2
unfolding bit
bit-lt_two zero w = omega arith
bit-lt_two (suc k) w = bit-lt_two k (w / 2)

pub bit-bit_or : (k a b : ℕ) → bit k (bit_or a b) ≡ max (bit k a) (bit k b)
unfolding bit
bit-bit_or zero a b = omega (arith, bit_or_step a b)
bit-bit_or (suc k) a b =
    let e : bit_or a b / 2 ≡ bit_or (a / 2) (b / 2) = omega (arith, bit_or_step a b) in
    rw e (bit-bit_or k (a / 2) (b / 2))

pub bit-bit_and : (k a b : ℕ) → bit k (bit_and a b) ≡ min (bit k a) (bit k b)
unfolding bit
bit-bit_and zero a b = omega (arith, bit_and_step a b)
bit-bit_and (suc k) a b =
    let e : bit_and a b / 2 ≡ bit_and (a / 2) (b / 2) = omega (arith, bit_and_step a b) in
    rw e (bit-bit_and k (a / 2) (b / 2))

bit-zero : (k : ℕ) → bit k 0 ≡ 0
unfolding bit
bit-zero zero = refl
bit-zero (suc k) = bit-zero k

pub bit-pow : (j k : ℕ) → bit j (2 ^ k) ≡ (if j == k then 1 else 0)
unfolding bit
bit-pow zero zero = refl
bit-pow zero (suc k) = ground (arith, pow-suc 2 k)
bit-pow (suc j) zero = ground (arith, bit-zero j)
bit-pow (suc j) (suc k) =
    let e : 2 ^ suc k / 2 ≡ 2 ^ k = omega (arith, pow-suc 2 k) in rw e (ground (arith, bit-pow j k))

-- A mask of `n` low bits.
pub bit-ones : (n k : ℕ) → k < n → bit k (2 ^ n - 1) ≡ 1
unfolding bit
bit-ones zero k h = absurd (omega arith)
bit-ones (suc n) zero h = omega (arith, pow-suc 2 n, two_pow_pos n)
bit-ones (suc n) (suc k) h =
    let e : (2 ^ suc n - 1) / 2 ≡ 2 ^ n - 1 = omega (arith, pow-suc 2 n) in
    rw e (bit-ones n k (omega arith))

-- Complementing an `n`-bit word flips each of its bits.
pub bit-complement : (n k w : ℕ) → k < n → w < 2 ^ n → bit k (2 ^ n - 1 - w) ≡ 1 - bit k w
unfolding bit
bit-complement zero k w h l = absurd (omega arith)
bit-complement (suc n) zero w h l = omega (arith, pow-suc 2 n)
bit-complement (suc n) (suc k) w h l =
    let e : (2 ^ suc n - 1 - w) / 2 ≡ 2 ^ n - 1 - w / 2 = omega (arith, pow-suc 2 n) in
    rw e (bit-complement n k (w / 2) (omega arith) (omega (arith, pow-suc 2 n)))

-- Masking with one bit gives that bit in its place.
pub bit_and-pow : (w k : ℕ) → bit_and w (2 ^ k) ≡ bit k w * 2 ^ k
unfolding bit
bit_and-pow w zero = omega (arith, bit_and_step w 1, bit_and-zero (w / 2))
bit_and-pow w (suc k) =
    let e : 2 ^ suc k / 2 ≡ 2 ^ k = omega (arith, pow-suc 2 k) in
    let s = bit_and_step w (2 ^ suc k) in
    omega (
      arith,
      (rw e at s),
      bit_and-pow (w / 2) k,
      pow-suc 2 k,
      ap (λ (t : ℕ). bit k (w / 2) * t) (pow-suc 2 k),
    )

-- A word is given by its bits.
pub bit_ext : (n a b : ℕ) → a < 2 ^ n → b < 2 ^ n → ((k : ℕ) → k < n → bit k a ≡ bit k b) → a ≡ b
unfolding bit
bit_ext zero a b p q h = omega arith
bit_ext (suc n) a b p q h =
    let halves : a / 2 ≡ b / 2 =
      bit_ext n (a / 2) (b / 2) (omega (arith, pow-suc 2 n)) (omega (arith, pow-suc 2 n))
        (λ k l. h (suc k) (omega arith)) in
    omega (arith, halves, h 0 (omega arith))

pub bit_or-lt : (n a b : ℕ) → a < 2 ^ n → b < 2 ^ n → bit_or a b < 2 ^ n
bit_or-lt zero a b p q =
    let e : a ≡ 0 = omega arith in let f : b ≡ 0 = omega arith in rw (e, f) (omega arith)
bit_or-lt (suc n) a b p q = omega (
  arith,
  bit_or_step a b,
  pow-suc 2 n,
  bit_or-lt n (a / 2) (b / 2) (omega (arith, pow-suc 2 n)) (omega (arith, pow-suc 2 n)),
)

pub bit_and-le : (n a b : ℕ) → a < 2 ^ n → bit_and a b ≤ a
bit_and-le zero a b p =
    let e : a ≡ 0 = omega arith in rw e (omega (arith, bit_and_step 0 b, zero-bit_and b))
bit_and-le (suc n) a b p =
    omega (arith, bit_and_step a b, bit_and-le n (a / 2) (b / 2) (omega (arith, pow-suc 2 n)))

-- `(q << k) | r` is a sum when `r` has `k` bits.
pub bit_or-shifted : (k q r : ℕ) → r < 2 ^ k → bit_or (q * 2 ^ k) r ≡ q * 2 ^ k + r
bit_or-shifted zero q r h = let e : r ≡ 0 = omega arith in rw e (omega (arith, bit_or-zero (q * 1)))
bit_or-shifted (suc k) q r h =
    let scale : q * 2 ^ suc k ≡ 2 * (q * 2 ^ k) =
      omega (arith, ap (λ (t : ℕ). q * t) (pow-suc 2 k)) in
    let half : q * 2 ^ suc k / 2 ≡ q * 2 ^ k = omega (arith, scale) in
    let step = bit_or_step (q * 2 ^ suc k) r in
    omega (arith, scale, (rw half at step), bit_or-shifted k q (r / 2) (omega (arith, pow-suc 2 k)))

-- `&` works on the digits above bit `k` and clears those below, if the mask has none there.
pub bit_and-high :
    (k q r m : ℕ) → r < 2 ^ k → bit_and (q * 2 ^ k + r) (m * 2 ^ k) ≡ bit_and q m * 2 ^ k
bit_and-high zero q r m h =
    let e : r ≡ 0 = omega arith in
    let f : q * 1 + 0 ≡ q = omega arith in
    let g : m * 1 ≡ m = omega arith in rw (e, f, g) (omega arith)
bit_and-high (suc k) q r m h =
    let a = q * 2 ^ suc k + r in
    let b = m * 2 ^ suc k in
    let scale_q : q * 2 ^ suc k ≡ 2 * (q * 2 ^ k) =
      omega (arith, ap (λ (t : ℕ). q * t) (pow-suc 2 k)) in
    let scale_m : m * 2 ^ suc k ≡ 2 * (m * 2 ^ k) =
      omega (arith, ap (λ (t : ℕ). m * t) (pow-suc 2 k)) in
    let half_a : a / 2 ≡ q * 2 ^ k + r / 2 = omega (arith, scale_q) in
    let half_b : b / 2 ≡ m * 2 ^ k = omega (arith, scale_m) in
    let step = bit_and_step a b in
    omega (
      arith,
      scale_q,
      scale_m,
      (rw (half_a, half_b) at step),
      bit_and-high k q (r / 2) m (omega (arith, pow-suc 2 k)),
      ap (λ (t : ℕ). bit_and q m * t) (pow-suc 2 k),
    )

-- A mask of the `k` low bits keeps just those.
pub bit_and-low_part : (k q r : ℕ) → r < 2 ^ k → bit_and (q * 2 ^ k + r) (2 ^ k - 1) ≡ r
bit_and-low_part zero q r h = omega (arith, bit_and-zero (q * 1 + r))
bit_and-low_part (suc k) q r h =
    let a = q * 2 ^ suc k + r in
    let scale : q * 2 ^ suc k ≡ 2 * (q * 2 ^ k) =
      omega (arith, ap (λ (t : ℕ). q * t) (pow-suc 2 k)) in
    let half_mask : (2 ^ suc k - 1) / 2 ≡ 2 ^ k - 1 = omega (arith, pow-suc 2 k) in
    let half : a / 2 ≡ q * 2 ^ k + r / 2 = omega (arith, scale) in
    let step = bit_and_step a (2 ^ suc k - 1) in
    omega (
      arith,
      scale,
      pow-suc 2 k,
      one-le-pow k 2,
      (rw (half, half_mask) at step),
      bit_and-low_part k q (r / 2) (omega (arith, pow-suc 2 k)),
    )

-- A mask of the `k` low bits is the remainder by `2 ^ k`.
pub bit_and-low : (k a : ℕ) → bit_and a (2 ^ k - 1) ≡ a % 2 ^ k
bit_and-low k a =
    rw (div-add-mod' a (2 ^ k)) at
      (bit_and-low_part k (a / 2 ^ k) (a % 2 ^ k) (mod-lt a (one-le-pow k 2 (omega arith))))

pub bit_or_comm : (n a b : ℕ) → a < 2 ^ n → b < 2 ^ n → bit_or a b ≡ bit_or b a
bit_or_comm zero a b p q = let e : a ≡ 0 = omega arith in let f : b ≡ 0 = omega arith in rw (e, f)
bit_or_comm (suc n) a b p q = omega (
  arith,
  bit_or_step a b,
  bit_or_step b a,
  bit_or_comm n (a / 2) (b / 2) (omega (arith, pow-suc 2 n)) (omega (arith, pow-suc 2 n)),
)
