-- ===== src/Pmm.antt =====
-- src/kernel/memory/physical_manager.c: the bitmap of physical blocks of 4 KiB.
-- `memory_map i` is the 32-bit word `g_memoryMap[i]`. It is a function of every index, since the
-- search reads past the end of the map, where other memory lies.
pub mod Blocks
pub mod Search
pub mod Regions
pub mod Frame
pub mod Allocate
pub mod Count
mod Examples
use splongle_os.Base.{
  ℕ, zero, suc, ◌+◌, ◌-◌, ◌*◌, ◌/◌, ◌%◌, ◌^◌, min, bit_and, bit_or, Bool, true, false, not, Option,
  none, some, ltb, leb, ◌==◌, if◌then◌else◌, u32, u64, sub32, not32, ◌<<◌, update,
}

pub record Pmm : Type 0 where
  pub memory_map : ℕ → ℕ
  pub map_address : ℕ
  pub max_blocks : ℕ
  pub used_blocks : ℕ

abbrev pub block_size : ℕ
block_size = 4096

abbrev pub blocks_per_byte : ℕ
blocks_per_byte = 8

-- `0x100000000ULL`, the 4 GiB limit; as a result of the search it means that nothing was found
abbrev pub four_gib : ℕ
four_gib = 2 ^ 32

abbrev pub index_mmap : ℕ → ℕ → ℕ
index_mmap offset b = u32 (offset * 32 + b)

-- The parameter is an `int32_t`; every caller passes a number below 2 ^ 31.
pub set_block : ℕ → Pmm → Pmm
set_block b p = record p {
  memory_map = update p.memory_map (b / 32) (bit_or (p.memory_map (b / 32)) (1 << (b % 32)));
}

pub unset_block : ℕ → Pmm → Pmm
unset_block b p = record p {
  memory_map =
      update p.memory_map (b / 32) (bit_and (p.memory_map (b / 32)) (not32 (1 << (b % 32))));
}

-- true: used; false: free
pub check_block : ℕ → Pmm → Bool
check_block b p = not (bit_and (p.memory_map (b / 32)) (1 << (b % 32)) == 0)

module _ (p : Pmm) (num_blocks : ℕ) where
  -- The innermost loop, `count` from 0 to `num_blocks`, with `rounds` left.
  pub scan_run : ℕ → ℕ → ℕ → ℕ → Bool
  scan_run start_bit zero count free_blocks = false
  scan_run start_bit (suc rounds) count free_blocks =
      let free' =
        if check_block (u32 (start_bit + count)) p then free_blocks else u32 (free_blocks + 1) in
      let rest = scan_run start_bit rounds (count + 1) free' in
      if free' == num_blocks then true else rest

  -- The loop over the bits of word `i`. What is scanned starts at `i * 32 + (1 << j)`.
  pub scan_bits : ℕ → ℕ → ℕ → Option ℕ
  scan_bits i zero j = none
  scan_bits i (suc rounds) j =
      let bit = 1 << j in
      let rest = scan_bits i rounds (j + 1) in
      let here = scan_run (index_mmap i bit) (num_blocks + 1) 0 0 in
      if bit_and (p.memory_map i) bit == 0
      then if here then some (index_mmap i j) else rest
      else rest

  -- The loop over the words of the map, 32 blocks at a time.
  pub scan_words : ℕ → ℕ → Option ℕ
  scan_words zero i = none
  scan_words (suc rounds) i =
      let rest = scan_words rounds (i + 1) in
      if p.memory_map i == 0xffff_ffff
      then rest
      else (elim (scan_bits i 32 0) [ none ↦ rest | some b ↦ some b ])

pub find_first_free_block : ℕ → Pmm → ℕ
find_first_free_block num_blocks p =
    if num_blocks == 0
    then four_gib
    else elim (scan_words p num_blocks (p.max_blocks / 32) 0) [ none ↦ four_gib | some b ↦ b ]

-- What `memset(g_memoryMap, 0xFF, bytes)` leaves in word `i`: its low bytes come first.
pub fill_map : ℕ → (ℕ → ℕ) → ℕ → ℕ
fill_map bytes words i = bit_or (words i) (2 ^ (8 * min 4 (bytes - 4 * i)) - 1)

-- `words` is what memory holds at `address` before the call.
pub memory_manager_init : ℕ → ℕ → (ℕ → ℕ) → Pmm
memory_manager_init address size words =
    let size' = if ltb four_gib size then four_gib else size in
    let max = u32 (size' / block_size) in
    record {
      memory_map = fill_map (max / blocks_per_byte) words;
      map_address = address;
      max_blocks = max;
      used_blocks = max;
    }

-- `for (; num_blocks > 0; num_blocks--) { unset_block(align++); g_usedBlocks--; }`
pub free_region : ℕ → ℕ → Pmm → Pmm
free_region zero align p = p
free_region (suc num_blocks) align p =
    let q = unset_block align p in
    free_region num_blocks (u32 (align + 1)) (record q { used_blocks = sub32 q.used_blocks 1 })

pub use_region : ℕ → ℕ → Pmm → Pmm
use_region zero align p = p
use_region (suc num_blocks) align p =
    let q = set_block align p in
    use_region num_blocks (u32 (align + 1)) (record q { used_blocks = u32 (q.used_blocks + 1) })

-- How many blocks of the region lie below 4 GiB.
pub region_blocks : ℕ → ℕ → ℕ
region_blocks base size =
    u32 ((if ltb four_gib (u64 (base + size)) then four_gib - base else size) / block_size)

pub initialize_region : ℕ → ℕ → Pmm → Pmm
initialize_region base size p =
    if leb four_gib base
    then p
    else set_block 0 (free_region (region_blocks base size) (base / block_size) p)

pub deinitialize_region : ℕ → ℕ → Pmm → Pmm
deinitialize_region base size p =
    if leb four_gib base then p else use_region (region_blocks base size) (base / block_size) p

-- `for (i = 0; i < num_blocks; ++i) set_block(starting_block + i);`
pub claim : ℕ → ℕ → ℕ → Pmm → Pmm
claim start zero i p = p
claim start (suc rounds) i p = claim start rounds (i + 1) (set_block (start + i) p)

-- `for (i = 0; i < num_blocks; ++i) unset_block(starting_block + i);`
pub release : ℕ → ℕ → ℕ → Pmm → Pmm
release start zero i p = p
release start (suc rounds) i p = release start rounds (i + 1) (unset_block (u32 (start + i)) p)

-- The address that is returned (0 for failure), and the new state.
pub allocate_blocks : ℕ → Pmm → ℕ × Pmm
allocate_blocks num_blocks p =
    let starting_block = find_first_free_block num_blocks p in
    let q = claim starting_block num_blocks 0 p in
    if ltb (sub32 p.max_blocks p.used_blocks) num_blocks
    then (0, p)
    else if starting_block == four_gib
    then (0, p)
    else (
      u32 (starting_block * block_size),
      record q { used_blocks = u32 (q.used_blocks + num_blocks) },
    )

pub free_blocks : ℕ → ℕ → Pmm → Pmm
free_blocks address num_blocks p =
    let q = release (address / block_size) num_blocks 0 p in
    record q { used_blocks = sub32 q.used_blocks num_blocks }
