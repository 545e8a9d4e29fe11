-- ===== src/Paging/Examples.antt =====
-- A directory at 0x2000 with one table, at 0x3000, and the claims about it.
use splongle_os.Base.{
  ℕ, ◌+◌, ◌*◌, ◌-◌, ◌/◌, ◌%◌, ◌^◌, ◌<◌, ◌≤◌, ◌≡◌, ◌≢◌, ◌⊎◌, ◌&&◌, ltb, leb, refl, sym, arith, ◌∙◌,
  true, false, [], ◌==◌, if◌then◌else◌, none, some,
}
use splongle_os.Base.Bits.{bit}
use splongle_os.Pmm.{Pmm, check_block, allocate_blocks}
use splongle_os.Pmm.Blocks.{check_block-bit}
use splongle_os.Paging.{Vm, unmap_page, page_manager_init}
use splongle_os.Paging.Start.{page_manager_init_lem}
use splongle_os.Paging.Translate.{translate}
use splongle_os.Paging.Map.{IsMapped, entry}
use splongle_os.Paging.MapPage.{unmap_page_lem}
use splongle_os.Paging.Reach.{IsReachable}

abbrev blocks : Pmm
blocks = record {
  memory_map = λ i. if i == 0 then 0xF else 0;
  map_address = 0x1_0000;
  max_blocks = 1024;
  used_blocks = 4;
}

-- The first entry of the directory is that of the table, which maps the first 4 MiB to themselves.
abbrev one_table : Vm
one_table = record {
  memory = λ a.
      if a == 0x2000
      then 0x3003
      else if leb 0x3000 a && ltb a 0x4000
      then (a - 0x3000) / 4 * 4096 + 3
      else 2;
  pmm = blocks;
  current_pd = 0x2000;
  paging = true;
  fault_handler = true;
  flushed = [];
}

used_blocks : (check_block 2 blocks ≡ true) × (check_block 3 blocks ≡ true)
unfolding bit
used_blocks = (check_block-bit 2 blocks, check_block-bit 3 blocks)

only_first : (d : ℕ) → d < 1024 → entry one_table d % 2 ≡ 1 → d ≡ 0
only_first d h present = ground (arith, h)

one_table-IsMapped : IsMapped one_table
one_table-IsMapped = record {
  words = λ a. ground arith;
  aligned = refl;
  bounded = record { blocks = omega arith; counter = omega arith };
  directory = used_blocks.0;
  tables =
      λ d h present. let first = only_first d h present in rw first (used_blocks.1, omega arith);
  apart = λ d e h k differ present present'.
      absurd (differ (only_first d h present ∙ sym (only_first e k present')));
}

one_table-IsReachable : IsReachable one_table
one_table-IsReachable = record {
  identity = λ a h. ground (arith, h);
  directory = omega arith;
  low = λ d h present. let first = only_first d h present in rw first (omega arith);
}

unmap_page_lem_example :
    let w = unmap_page 0x1234 one_table in
    (translate w.memory w.current_pd 0x1234 ≡ none)
    × (w.flushed ≡ [])
    × ((other : ℕ)
        → other < 2 ^ 32
        → other / 4096 ≢ 1
        → translate w.memory w.current_pd other ≡ translate one_table.memory 0x2000 other)
    × (2 ^ 22 ≤ 0x1234 → IsReachable w)
unmap_page_lem_example =
    unmap_page_lem 0x1234 one_table one_table-IsMapped one_table-IsReachable (omega arith) refl

page_manager_init_lem_example :
    let (done, w) = page_manager_init one_table in
    let (dir, p) = allocate_blocks 3 blocks in
    let (table, q) = allocate_blocks 1 p in
    ((done ≡ false)
      × ((dir ≡ 0) ⊎ ((table ≡ 0) ⊎ ((allocate_blocks 1 q).0 ≡ 0)))
      × (w.paging ≡ true)
      × (w.current_pd ≡ 0x2000))
    ⊎ ((done ≡ true)
        × (w.paging ≡ true)
        × (translate w.memory w.current_pd 0xC000_1234 ≡ some 0x10_1234))
page_manager_init_lem_example =
    page_manager_init_lem one_table 0xC000_1234
      (record { blocks = omega arith; counter = omega arith }) (omega arith)
