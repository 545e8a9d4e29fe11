-- ===== src/Pmm/Blocks.antt =====
-- What `set_block`, `unset_block` and the loops over them do to each block.
use splongle_os.Base.{
  ℕ, zero, suc, ◌+◌, ◌*◌, ◌/◌, ◌%◌, ◌^◌, ◌<◌, ◌≡◌, refl, arith, true, false, ◌&&◌, ltb, leb, ◌==◌,
  if◌then◌else◌, not32, u32,
}
use splongle_os.Base.Bits.{
  two_pow_pos, two_pow-lt, one_shl, bit, bit-lt_two, bit-bit_or, bit-bit_and, bit-pow,
  bit-complement, bit_and-pow,
}
use splongle_os.Pmm.{Pmm, set_block, unset_block, check_block, claim, release}

scaled_zero_iff : (b m : ℕ) → b < 2 → 0 < m → (b * m == 0) ≡ (b == 0)
scaled_zero_iff zero m h p = ground arith
scaled_zero_iff (suc zero) m h p = ground arith
scaled_zero_iff (suc (suc b)) m h p = absurd (omega arith)

-- A block is used when its bit is 1.
pub check_block-bit :
    (b : ℕ) (p : Pmm) → check_block b p ≡ (bit (b % 32) (p.memory_map (b / 32)) == 1)
unfolding check_block
check_block-bit b p =
    let w = p.memory_map (b / 32) in
    let k = b % 32 in
    ground (
      arith,
      one_shl k,
      bit_and-pow w k,
      scaled_zero_iff (bit k w) (2 ^ k) (bit-lt_two k w) (two_pow_pos k),
      bit-lt_two k w,
    )

-- The counters do not matter.
pub check_block-counter :
    (c u : ℕ) (p : Pmm) → check_block c (record p { used_blocks = u }) ≡ check_block c p
unfolding check_block
check_block-counter c u p = refl

-- `set_block(b)` makes block `b` used and leaves every other block as it was.
pub check_block-set_block :
    (c b : ℕ) (p : Pmm) → check_block c (set_block b p) ≡ (if b == c then true else check_block c p)
unfolding set_block
check_block-set_block c b p =
    let w = p.memory_map (b / 32) in
    ground (
      arith,
      check_block-bit c (set_block b p),
      check_block-bit c p,
      one_shl (b % 32),
      bit-bit_or (c % 32) w (2 ^ (b % 32)),
      bit-pow (c % 32) (b % 32),
      bit-lt_two (c % 32) w,
    )

-- `unset_block(b)` makes block `b` free and leaves every other block as it was.
pub check_block-unset_block :
    (c b : ℕ) (p : Pmm)
    → check_block c (unset_block b p) ≡ (if b == c then false else check_block c p)
unfolding unset_block
check_block-unset_block c b p =
    let w = p.memory_map (b / 32) in
    ground (
      arith,
      check_block-bit c (unset_block b p),
      check_block-bit c p,
      one_shl (b % 32),
      bit-bit_and (c % 32) w (not32 (2 ^ (b % 32))),
      bit-complement 32 (c % 32) (2 ^ (b % 32)) (omega arith)
          (two_pow-lt (b % 32) 32 (omega arith)),
      bit-pow (c % 32) (b % 32),
      bit-lt_two (c % 32) w,
    )

-- The blocks that `claim start n i` sets are those from `start + i` on.
pub check_block-claim :
    (start n i c : ℕ) (p : Pmm)
    → check_block c (claim start n i p)
      ≡ (if leb (start + i) c && ltb c (start + i + n) then true else check_block c p)
unfolding claim
check_block-claim start zero i c p = ground arith
check_block-claim start (suc n) i c p = ground (
  arith,
  check_block-claim start n (i + 1) c (set_block (start + i) p),
  check_block-set_block c (start + i) p,
)

-- The same for `release`, below the 32-bit wrap.
pub check_block-release :
    (start n i c : ℕ) (p : Pmm)
    → start + i + n < 2 ^ 32
    → check_block c (release start n i p)
      ≡ (if leb (start + i) c && ltb c (start + i + n) then false else check_block c p)
unfolding release
check_block-release start zero i c p h = ground arith
check_block-release start (suc n) i c p h = ground (
  arith,
  check_block-release start n (i + 1) c (unset_block (u32 (start + i)) p),
  check_block-unset_block c (start + i) p,
)

-- The loops write the map alone.
pub claim_frame :
    (start n i : ℕ) (p : Pmm)
    → ((claim start n i p).max_blocks ≡ p.max_blocks)
      × ((claim start n i p).used_blocks ≡ p.used_blocks)
unfolding claim set_block
claim_frame start zero i p = (refl, refl)
claim_frame start (suc n) i p = claim_frame start n (i + 1) (set_block (start + i) p)

pub release_frame :
    (start n i : ℕ) (p : Pmm)
    → ((release start n i p).max_blocks ≡ p.max_blocks)
      × ((release start n i p).used_blocks ≡ p.used_blocks)
unfolding release unset_block
release_frame start zero i p = (refl, refl)
release_frame start (suc n) i p = release_frame start n (i + 1) (unset_block (u32 (start + i)) p)
