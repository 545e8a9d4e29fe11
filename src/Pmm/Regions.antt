-- ===== src/Pmm/Regions.antt =====
-- `Memory_Manager_Init`, `initialize_region` and `deinitialize_region`: which blocks they leave
-- used and which free.
use splongle_os.Base.{
  ℕ, zero, suc, ◌+◌, ◌-◌, ◌*◌, ◌/◌, ◌%◌, ◌^◌, ◌≤◌, ◌<◌, ◌≡◌, refl, arith, Bool, true, false, min,
  ◌&&◌, ltb, leb, ◌==◌, if◌then◌else◌, u32, sub32,
}
use splongle_os.Base.Bits.{bit, bit-lt_two, bit-bit_or, bit-ones}
use splongle_os.Pmm.{
  Pmm, four_gib, block_size, set_block, unset_block, check_block, fill_map, memory_manager_init,
  free_region, use_region, region_blocks, initialize_region, deinitialize_region,
}
use splongle_os.Pmm.Blocks.{
  check_block-bit, check_block-set_block, check_block-unset_block, check_block-counter,
}

fill_map-bit :
    (bytes b : ℕ) (words : ℕ → ℕ) → b < 8 * bytes → bit (b % 32) (fill_map bytes words (b / 32)) ≡ 1
unfolding fill_map
fill_map-bit bytes b words h =
    let n = 8 * min 4 (bytes - 4 * (b / 32)) in
    omega (
      arith,
      bit-bit_or (b % 32) (words (b / 32)) (2 ^ n - 1),
      bit-ones n (b % 32) (omega arith),
      bit-lt_two (b % 32) (words (b / 32)),
    )

-- After `Memory_Manager_Init`, if the number of blocks is a multiple of eight: memory above 4 GiB
-- is ignored, every block of the map is used, whatever memory held before, and the counter says
-- so.
pub memory_manager_init_lem :
    (address size b : ℕ) (words : ℕ → ℕ)
    → (memory_manager_init address size words).max_blocks % 8 ≡ 0
    → b < (memory_manager_init address size words).max_blocks
    → let p = memory_manager_init address size words in
      (p.max_blocks ≡ min size four_gib / block_size)
      × (p.used_blocks ≡ p.max_blocks)
      × (check_block b p ≡ true)
unfolding memory_manager_init
memory_manager_init_lem address size b words whole h =
    let p = memory_manager_init address size words in
    (
      ground arith,
      refl,
      ground (arith, check_block-bit b p, fill_map-bit (p.max_blocks / 8) b words),
    )

pub check_block-free_region :
    (n align c : ℕ) (p : Pmm)
    → align + n < 2 ^ 32
    → check_block c (free_region n align p)
      ≡ (if leb align c && ltb c (align + n) then false else check_block c p)
unfolding free_region
check_block-free_region zero align c p h = ground arith
check_block-free_region (suc n) align c p h =
    let q = unset_block align p in
    let u = sub32 q.used_blocks 1 in
    ground (
      arith,
      check_block-free_region n (u32 (align + 1)) c (record q { used_blocks = u }),
      check_block-counter c u q,
      check_block-unset_block c align p,
    )

check_block-use_region :
    (n align c : ℕ) (p : Pmm)
    → align + n < 2 ^ 32
    → check_block c (use_region n align p)
      ≡ (if leb align c && ltb c (align + n) then true else check_block c p)
unfolding use_region
check_block-use_region zero align c p h = ground arith
check_block-use_region (suc n) align c p h =
    let q = set_block align p in
    let u = u32 (q.used_blocks + 1) in
    ground (
      arith,
      check_block-use_region n (u32 (align + 1)) c (record q { used_blocks = u }),
      check_block-counter c u q,
      check_block-set_block c align p,
    )

used_blocks-free_region :
    (n align : ℕ) (p : Pmm)
    → n ≤ p.used_blocks
    → p.used_blocks < 2 ^ 32
    → (free_region n align p).used_blocks ≡ p.used_blocks - n
unfolding free_region unset_block
used_blocks-free_region zero align p h k = omega arith
used_blocks-free_region (suc n) align p h k =
    let q = unset_block align p in
    omega (
      arith,
      used_blocks-free_region n (u32 (align + 1)) (record q { used_blocks = sub32 q.used_blocks 1 })
          (omega arith) (omega arith),
    )

used_blocks-use_region :
    (n align : ℕ) (p : Pmm)
    → p.used_blocks + n < 2 ^ 32
    → (use_region n align p).used_blocks ≡ p.used_blocks + n
unfolding use_region set_block
used_blocks-use_region zero align p h = omega arith
used_blocks-use_region (suc n) align p h =
    let q = set_block align p in
    omega (
      arith,
      used_blocks-use_region n (u32 (align + 1))
          (record q { used_blocks = u32 (q.used_blocks + 1) }) (omega arith),
    )

-- The blocks of a region, cut off at 4 GiB.
abbrev pub in_region : ℕ → ℕ → ℕ → Bool
in_region base size c =
    leb (base / block_size) c && ltb c (base / block_size + min size (four_gib - base) / block_size)

pub region_blocks_lem :
    (base size : ℕ)
    → base < four_gib
    → size < 2 ^ 63
    → region_blocks base size ≡ min size (four_gib - base) / block_size
unfolding region_blocks
region_blocks_lem base size h k = ground arith

pub initialize_region-blocks :
    (base size c : ℕ) (p : Pmm)
    → base < four_gib
    → size < 2 ^ 63
    → check_block c (initialize_region base size p)
      ≡ (if c == 0 then true else if in_region base size c then false else check_block c p)
unfolding initialize_region
initialize_region-blocks base size c p h k =
    let n = region_blocks base size in
    let a = base / block_size in
    ground (
      arith,
      region_blocks_lem base size,
      check_block-set_block c 0 (free_region n a p),
      check_block-free_region n a c p,
    )

pub deinitialize_region-blocks :
    (base size c : ℕ) (p : Pmm)
    → base < four_gib
    → size < 2 ^ 63
    → check_block c (deinitialize_region base size p)
      ≡ (if in_region base size c then true else check_block c p)
unfolding deinitialize_region
deinitialize_region-blocks base size c p h k = ground (
  arith,
  region_blocks_lem base size,
  check_block-use_region (region_blocks base size) (base / block_size) c p,
)

-- `initialize_region` of a base below 4 GiB and a size below 2^63, with at least as many blocks
-- counted as used as the region has: the blocks of the region become free, cut off at 4 GiB, but
-- for block 0, which is used afterwards in any case; other blocks keep their state, and the
-- counter goes down by the number of blocks in the region.
pub initialize_region_lem :
    (base size : ℕ) (p : Pmm)
    → base < four_gib
    → size < 2 ^ 63
    → min size (four_gib - base) / block_size ≤ p.used_blocks
    → p.used_blocks < 2 ^ 32
    → ((c : ℕ)
        → check_block c (initialize_region base size p)
          ≡ (if c == 0 then true else if in_region base size c then false else check_block c p))
      × ((initialize_region base size p).used_blocks
          ≡ p.used_blocks - min size (four_gib - base) / block_size)
unfolding initialize_region
initialize_region_lem base size p h k l m =
    let n = region_blocks base size in
    let a = base / block_size in
    let q = free_region n a p in
    (
      λ c. initialize_region-blocks base size c p h k,
      unfold set_block in
          ground (arith, region_blocks_lem base size, used_blocks-free_region n a p),
    )

-- `deinitialize_region` of a base below 4 GiB and a size below 2^63, with room in the counter: the
-- blocks of the region become used, cut off at 4 GiB, other blocks keep their state, and the
-- counter goes up by the size of the region, also for the blocks that were used before.
pub deinitialize_region_lem :
    (base size : ℕ) (p : Pmm)
    → base < four_gib
    → size < 2 ^ 63
    → p.used_blocks + min size (four_gib - base) / block_size < 2 ^ 32
    → ((c : ℕ)
        → check_block c (deinitialize_region base size p)
          ≡ (if in_region base size c then true else check_block c p))
      × ((deinitialize_region base size p).used_blocks
          ≡ p.used_blocks + min size (four_gib - base) / block_size)
unfolding deinitialize_region
deinitialize_region_lem base size p h k l =
    let n = region_blocks base size in
    let a = base / block_size in
    (
      λ c. deinitialize_region-blocks base size c p h k,
      ground (arith, region_blocks_lem base size, used_blocks-use_region n a p),
    )
