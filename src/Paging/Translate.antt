-- ===== src/Paging/Translate.antt =====
-- The walk of the processor through the tables, for 4 KiB pages, and what one entry changes in it.
use splongle_os.Base.{
  ℕ, ◌+◌, ◌*◌, ◌/◌, ◌%◌, ◌^◌, ◌<◌, ◌≡◌, arith, ◌∙◌, Option, none, some, ◌==◌, if◌then◌else◌, update,
}
use splongle_os.Paging.{Vm, map_in_table, set_attr, set_frame}
use splongle_os.Paging.Entries.{
  pd_index_lem, pt_index_lem, page_phys_addr_lem, set_frame_lem, set_present,
}

-- Bit 0 of an entry tells whether it is present, its upper 20 bits give the frame.
abbrev pub walk_table : (ℕ → ℕ) → ℕ → ℕ → Option ℕ
walk_table memory pde virt =
    let pte = memory (pde / 4096 * 4096 + 4 * (virt / 4096 % 1024)) in
    if pde % 2 == 0
    then none
    else if pte % 2 == 0
    then none
    else some (pte / 4096 * 4096 + virt % 4096)

abbrev pub translate : (ℕ → ℕ) → ℕ → ℕ → Option ℕ
translate memory pd virt = walk_table memory (memory (pd + 4 * (virt / 2 ^ 22))) virt

abbrev pub IsWords : (ℕ → ℕ) → Type 0
IsWords memory = (a : ℕ) → memory a < 2 ^ 32

-- The entry of the page, in the table of its directory entry.
abbrev pub page_at : ℕ → ℕ → ℕ
page_at pde virt = pde / 4096 * 4096 + 4 * (virt / 4096 % 1024)

-- `map_in_table` writes one word.
pub map_in_table_lem :
    (phys virt : ℕ) (v : Vm)
    → IsWords v.memory
    → virt < 2 ^ 32
    → phys < 2 ^ 32
    → phys % 4096 ≡ 0
    → let page = page_at (v.memory (v.current_pd + 4 * (virt / 2 ^ 22))) virt in
      (map_in_table phys virt v).memory
      ≡ update v.memory page (phys + v.memory page % 4096 / 2 * 2 + 1)
unfolding map_in_table
map_in_table_lem phys virt v words h k l =
    let e = v.memory (v.current_pd + 4 * (virt / 2 ^ 22)) in
    let page = page_at e virt in
    let value : set_frame (set_attr (v.memory page) 1) phys
        ≡ phys + v.memory page % 4096 / 2 * 2 + 1 =
      set_frame_lem (set_attr (v.memory page) 1) phys k l
      ∙ omega (arith, set_present (v.memory page)) in
    rw (pd_index_lem virt h, page_phys_addr_lem e (words _), pt_index_lem virt, value)
