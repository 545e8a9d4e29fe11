-- ===== src/Pmm/Examples.antt =====
-- A memory of 32 blocks, of which the first four are used, and the claims about it.
use splongle_os.Base.{
  ℕ, ◌+◌, ◌-◌, ◌*◌, ◌/◌, ◌%◌, ◌<◌, ◌≡◌, ◌≢◌, ◌⊎◌, inl, inr, refl, arith, true, false, min, ltb, leb,
  ◌==◌, ◌&&◌, if◌then◌else◌, ◌||◌, ◌∙◌, Bool-cases, all_below, all_below_sound,
}
use splongle_os.Base.Bits.{bit, bit-ones}
use splongle_os.Pmm.Blocks.{check_block-bit}
use splongle_os.Pmm.{
  Pmm, four_gib, block_size, check_block, index_mmap, scan_run, scan_bits, scan_words,
  find_first_free_block, memory_manager_init, initialize_region, deinitialize_region,
  allocate_blocks, claim, set_block, free_blocks,
}
use splongle_os.Pmm.Search.{find_first_free_block-lone, find_first_free_block-hole}
use splongle_os.Pmm.Regions.{
  in_region, memory_manager_init_lem, initialize_region_lem, deinitialize_region_lem,
}
use splongle_os.Pmm.Allocate.{IsBounded, allocate_blocks_lem, free_blocks-allocate_blocks}
use splongle_os.Pmm.Count.{
  count_used, IsCounted, allocate_blocks-IsCounted, free_blocks-IsCounted,
  initialize_region_miscount,
}

abbrev four_used : Pmm
four_used = record {
  memory_map = λ i. if i == 0 then 0xF else 0xFFFF_FFFF;
  map_address = 0x1_0000;
  max_blocks = 32;
  used_blocks = 4;
}

four_used-IsBounded : IsBounded four_used
four_used-IsBounded = record { blocks = omega arith; counter = omega arith }

first_address : (allocate_blocks 1 four_used).0 ≡ 0x4000
unfolding allocate_blocks claim set_block find_first_free_block scan_words scan_bits scan_run
    check_block index_mmap
first_address = refl

four_used-IsCounted : IsCounted four_used
unfolding check_block
four_used-IsCounted = refl

allocate_blocks_lem_example :
    let (address, q) = allocate_blocks 3 four_used in
    ((address ≡ 0) × (q ≡ four_used))
    ⊎ ((b : ℕ) × (address ≡ b * block_size)
        × (b < 32)
        × (check_block b four_used ≡ false)
        × ((c : ℕ)
            → check_block c q
              ≡ (if leb b c && ltb c (b + 3) then true else check_block c four_used))
        × (q.used_blocks ≡ 4 + 3)
        × (q.max_blocks ≡ 32)
        × IsBounded q)
allocate_blocks_lem_example = allocate_blocks_lem 3 four_used four_used-IsBounded

free_blocks-allocate_blocks_example :
    let (address, q) = allocate_blocks 1 four_used in
    (check_block 4 (free_blocks address 1 q) ≡ check_block 4 four_used)
    × ((free_blocks address 1 q).used_blocks ≡ 4)
free_blocks-allocate_blocks_example =
    free_blocks-allocate_blocks four_used 4 four_used-IsBounded (omega (arith, first_address))

allocate_blocks-IsCounted_example : IsCounted (allocate_blocks 1 four_used).1
allocate_blocks-IsCounted_example =
    allocate_blocks-IsCounted four_used four_used-IsBounded four_used-IsCounted

third_used : check_block (0x3000 / block_size) four_used ≡ true
unfolding check_block
third_used = refl

free_blocks-IsCounted_example : IsCounted (free_blocks 0x3000 1 four_used)
free_blocks-IsCounted_example =
    free_blocks-IsCounted 0x3000 four_used four_used-IsBounded four_used-IsCounted (omega arith)
      third_used

abbrev one_free : Pmm
one_free = record {
  memory_map = λ i. if i == 0 then 0xFFFF_FFEF else 0xFFFF_FFFF;
  map_address = 0x1_0000;
  max_blocks = 32;
  used_blocks = 31;
}

others_used : (c : ℕ) → c ≢ 4 → check_block c one_free ≡ true
unfolding bit
others_used c h =
    let table = all_below_sound 32 (λ k. (k == 4) || (bit k 0xFFFF_FFEF == 1)) (c % 32) in
    let computed : all_below 32 (λ k. (k == 4) || (bit k 0xFFFF_FFEF == 1)) ≡ true =
      unfold all_below in refl in
    let low = table computed (omega arith) in
    let ones = bit-ones 32 (c % 32) (omega arith) in
    check_block-bit c one_free ∙ elim (Bool-cases (c / 32 == 0)) [
      | inl first ↦
          let here : c % 32 ≢ 4 = ground (arith, first) in rw first (ground (arith, low, here))
      | inr later ↦ rw later (ground (arith, ones))
    ]

find_first_free_block-lone_example : find_first_free_block 1 one_free ≡ four_gib
find_first_free_block-lone_example = find_first_free_block-lone one_free 4 others_used (omega arith)

-- Blocks 0, 2 and 3 are free.
abbrev one_hole : Pmm
one_hole = record {
  memory_map = λ i. if i == 0 then 0xFFFF_FFF2 else 0xFFFF_FFFF;
  map_address = 0x1_0000;
  max_blocks = 32;
  used_blocks = 29;
}

hole_bits :
    (check_block 0 one_hole ≡ false)
    × (check_block 1 one_hole ≡ true)
    × (check_block 2 one_hole ≡ false)
    × (check_block 3 one_hole ≡ false)
unfolding check_block
hole_bits = (refl, refl, refl, refl)

find_first_free_block-hole_example :
    (find_first_free_block 2 one_hole ≡ 0) × (check_block 1 one_hole ≡ true)
find_first_free_block-hole_example =
    find_first_free_block-hole one_hole 0 (λ k h. absurd (omega (arith, h))) (hole_bits.0)
      (hole_bits.1) (hole_bits.2) (hole_bits.3) (omega arith) (omega arith)

memory_manager_init_lem_example :
    let p = memory_manager_init 0x1_0000 0x10_0000 (λ i. 0) in
    (p.max_blocks ≡ min 0x10_0000 four_gib / block_size)
    × (p.used_blocks ≡ p.max_blocks)
    × (check_block 200 p ≡ true)
unfolding memory_manager_init
memory_manager_init_lem_example =
    memory_manager_init_lem 0x1_0000 0x10_0000 200 (λ i. 0) (omega arith) (omega arith)

initialize_region_lem_example :
    ((c : ℕ)
      → check_block c (initialize_region 0x1000 0x2000 four_used) ≡ (
          if c == 0
          then true
          else if in_region 0x1000 0x2000 c
          then false
          else check_block c four_used))
    × ((initialize_region 0x1000 0x2000 four_used).used_blocks
        ≡ 4 - min 0x2000 (four_gib - 0x1000) / block_size)
initialize_region_lem_example =
    initialize_region_lem 0x1000 0x2000 four_used (omega arith) (omega arith) (omega arith)
      (omega arith)

deinitialize_region_lem_example :
    ((c : ℕ)
      → check_block c (deinitialize_region 0x8000 0x2000 four_used)
        ≡ (if in_region 0x8000 0x2000 c then true else check_block c four_used))
    × ((deinitialize_region 0x8000 0x2000 four_used).used_blocks
        ≡ 4 + min 0x2000 (four_gib - 0x8000) / block_size)
deinitialize_region_lem_example =
    deinitialize_region_lem 0x8000 0x2000 four_used (omega arith) (omega arith) (omega arith)

abbrev all_used : Pmm
all_used = record {
  memory_map = λ i. 0xFFFF_FFFF;
  map_address = 0x1_0000;
  max_blocks = 4;
  used_blocks = 4;
}

all_used-used : (c : ℕ) → c < 4 → check_block c all_used ≡ true
all_used-used c h =
    let ones = bit-ones 32 (c % 32) (omega arith) in
    check_block-bit c all_used ∙ ground (arith, ones)

all_used-IsCounted : IsCounted all_used
unfolding check_block
all_used-IsCounted = refl

initialize_region_miscount_example :
    let q = initialize_region 0 0x2000 all_used in
    count_used q.max_blocks q ≡ (if in_region 0 0x2000 0 then q.used_blocks + 1 else q.used_blocks)
initialize_region_miscount_example =
    initialize_region_miscount 0 0x2000 all_used (omega arith) (omega arith) (omega arith)
      (omega arith) all_used-used all_used-IsCounted
