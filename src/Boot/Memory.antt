-- ===== src/Boot/Memory.antt =====
-- Which blocks are used when `kernel_main` has set up memory, and that the kernel's own are never
-- handed out.
use splongle_os.Base.{
  ℕ, ◌+◌, ◌-◌, ◌/◌, ◌%◌, ◌^◌, ◌≤◌, ◌<◌, ◌≡◌, ◌≢◌, ◌⊎◌, arith, ◌∙◌, bit_and, List, true, false, inl,
  inr, ltb, leb, ◌==◌, ◌&&◌, ◌||◌, if◌then◌else◌, min,
}
use splongle_os.Pmm.{
  Pmm, four_gib, block_size, check_block, memory_manager_init, deinitialize_region, allocate_blocks,
}
use splongle_os.Pmm.Regions.{memory_manager_init_lem, deinitialize_region-blocks}
use splongle_os.Pmm.Frame.{deinitialize_region-max_blocks, memory_manager_init-max_blocks}
use splongle_os.Pmm.Allocate.{allocate_blocks-free}
use splongle_os.Memmap.{Info, Entry, get_total_mem, set_type1}
use splongle_os.Memmap.Walk.{LaidOut, visit, sum_lengths, memory_map_lem}
use splongle_os.Memmap.Regions.{marked, AllBounded, set_type1_lem, set_type1-max_blocks}
use splongle_os.Boot.{setup_memory}

module _ (entries : ℕ → Entry) (info : Info) (es : List Entry) (words : ℕ → ℕ)
    (short : info.mmap_length < 2 ^ 32) (laid : LaidOut entries info 0 es) (bounded : AllBounded es)
    (flag : bit_and info.flags 0x40 ≢ 0) (size : sum_lengths es < 2 ^ 63) where
  abbrev total : ℕ
  total = sum_lengths es

  abbrev memory : Pmm
  memory = setup_memory entries info words

  total_lem : get_total_mem entries info ≡ total
  total_lem =
      let known : (bit_and info.flags 0x40 == 0) ≡ false = ground arith in
      (memory_map_lem entries info es short laid).0 ∙ rw known (omega (arith, size))

  -- After `kernel_main` has set up memory, where the loader gives a map whose entries lie one
  -- behind the other, end below 2^63, have lengths of less than 2^63 together and give a number
  -- of blocks that is a multiple of eight: the blocks of the kernel are used, so are those that
  -- the bitmap fills whole, and any other block is as the entries say that cover it, used if
  -- there is none.
  pub setup_memory_lem :
      (c : ℕ)
      → c < min total four_gib / block_size
      → min total four_gib / block_size % 8 ≡ 0
      → check_block c memory ≡ (
          if (leb 0x100 c && ltb c 0x300)
            || (leb 0x30 c
                && ltb c (0x30 + min (total / 4096 / 8) (four_gib - 0x3_0000) / block_size))
          then true
          else visit (marked c) es true)
  unfolding setup_memory
  setup_memory_lem c inside whole =
      let p = memory_manager_init 0x3_0000 total words in
      let max = memory_manager_init-max_blocks 0x3_0000 total words in
      let q = set_type1 entries info p in
      let start : check_block c p ≡ true =
        (memory_manager_init_lem 0x3_0000 total c words (rw max whole) (rw max inside)).2 in
      let marks = set_type1_lem entries info es c p short laid bounded in
      let r = deinitialize_region 0x10_0000 0x20_0000 q in
      let kernel = deinitialize_region-blocks 0x10_0000 0x20_0000 c q (omega arith) (omega arith) in
      let bitmap =
        deinitialize_region-blocks 0x3_0000 (total / 4096 / 8) c r (omega arith)
          (omega (arith, size)) in
      rw total_lem (bitmap ∙ rw kernel (rw (marks, start) (ground arith)))

  max_blocks_lem : memory.max_blocks ≡ min total four_gib / block_size
  unfolding setup_memory
  max_blocks_lem =
      let p = memory_manager_init 0x3_0000 total words in
      let q = set_type1 entries info p in
      let r = deinitialize_region 0x10_0000 0x20_0000 q in
      rw total_lem (
        deinitialize_region-max_blocks 0x3_0000 (total / 4096 / 8) r
        ∙ deinitialize_region-max_blocks 0x10_0000 0x20_0000 q
        ∙ set_type1-max_blocks entries info es p short laid
        ∙ memory_manager_init-max_blocks 0x3_0000 total words)

  -- After `kernel_main` has set up memory from a map as above, with a number of blocks that is a
  -- multiple of eight and at least those up to the end of the kernel: whatever is allocated
  -- first fails or does not begin in the kernel.
  pub setup_memory-allocate :
      (n : ℕ)
      → min total four_gib / block_size % 8 ≡ 0
      → 0x300 ≤ min total four_gib / block_size
      → let address = (allocate_blocks n memory).0 in
        (address ≡ 0) ⊎ ((address < 0x10_0000) ⊎ (0x30_0000 ≤ address))
  setup_memory-allocate n whole large =
      let max : memory.max_blocks ≡ min total four_gib / block_size = max_blocks_lem in
      elim (allocate_blocks-free n memory (ground (arith, max))) [
        | inl null ↦ inl null
        | inr (b, at, inside, was_free) ↦
            let state = setup_memory_lem b (ground (arith, max, inside)) whole in
            inr (ground (arith, state, was_free, at))
      ]
