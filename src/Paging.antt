-- ===== src/Paging.antt =====
-- src/kernel/memory/page.c and include/page.h: page tables over physical memory. A pointer to an
-- entry is its address, and `memory a` is the 32-bit word at address `a`. The kernel
-- uses the physical addresses of its tables as pointers, which `Paging.Reach.IsReachable` is about.
pub mod Initial
pub mod Start
pub mod OnDemand
pub mod Entries
pub mod Translate
pub mod Map
pub mod Extend
pub mod Reach
pub mod MapPage
mod Examples
use splongle_os.Base.{
  ℕ, zero, suc, ◌+◌, ◌-◌, ◌*◌, ◌/◌, ◌%◌, ◌^◌, bit_and, bit_or, Bool, true, false, not, ◌&&◌, List,
  ◌∷◌, ltb, leb, ◌==◌, if◌then◌else◌, u32, not32, ◌>>◌, update,
}
use splongle_os.Pmm.{Pmm, allocate_blocks, free_blocks}

-- `flushed` lists the addresses of the TLB entries that were invalidated, the newest first, and
-- `fault_handler` tells whether `PFHandler` is registered for interrupt 14.
pub record Vm : Type 0 where
  pub memory : ℕ → ℕ
  pub pmm : Pmm
  pub current_pd : ℕ
  pub paging : Bool
  pub fault_handler : Bool
  pub flushed : List ℕ

abbrev pub page_size : ℕ
page_size = 4096

abbrev pub kernel_address : ℕ
kernel_address = 0x0010_0000

abbrev pub pte_present : ℕ
pte_present = 1

abbrev pub pte_read_write : ℕ
pte_read_write = 2

-- `PTE_FRAME`
abbrev pub pte_frame : ℕ
pte_frame = 0xFFFF_F000

pub pd_index : ℕ → ℕ
pd_index virt = bit_and (virt >> 22) 0x3FF

pub pt_index : ℕ → ℕ
pt_index virt = bit_and (virt >> 12) 0x3FF

pub page_phys_addr : ℕ → ℕ
page_phys_addr entry = bit_and entry (not32 0xFFF)

pub set_attr : ℕ → ℕ → ℕ
set_attr entry attr = bit_or entry attr

pub clear_attr : ℕ → ℕ → ℕ
clear_attr entry attr = bit_and entry (not32 attr)

pub set_frame : ℕ → ℕ → ℕ
set_frame entry address = bit_or (bit_and entry (not32 pte_frame)) address

-- The address of an entry of a table; 0 for a table that is NULL.
pub get_pte : ℕ → ℕ → ℕ
get_pte pt virt = if pt == 0 then 0 else pt + 4 * pt_index virt

-- Indexed by `PT_INDEX`, as in the source.
pub get_pde : ℕ → ℕ → ℕ
get_pde pd virt = if pd == 0 then 0 else pd + 4 * pt_index virt

pub get_page : ℕ → Vm → ℕ
get_page virt v = page_phys_addr (v.memory (v.current_pd + 4 * pd_index virt)) + 4 * pt_index virt

-- The block, or 0.
pub allocate_page : ℕ → Vm → ℕ × Vm
allocate_page page v =
    let (block, p) = allocate_blocks 1 v.pmm in
    let entry = set_attr (set_frame (v.memory page) block) pte_present in
    if block == 0
    then (block, record v { pmm = p })
    else (block, record v { pmm = p; memory = update v.memory page entry })

pub free_page : ℕ → Vm → Vm
free_page page v =
    let address = page_phys_addr (v.memory page) in
    record v {
      pmm = if address == 0 then v.pmm else free_blocks address 1 v.pmm;
      memory = update v.memory page (clear_attr (v.memory page) pte_present);
    }

pub set_pd : ℕ → Vm → Bool × Vm
set_pd pd v = if pd == 0 then (false, v) else (true, record v { current_pd = pd })

-- `memset(table, 0, sizeof(page_table))`
abbrev pub clear_table : ℕ → (ℕ → ℕ) → ℕ → ℕ
clear_table table memory a = if leb table a && ltb a (table + page_size) then 0 else memory a

-- The second half of `map_page`, behind the test of the directory entry.
pub map_in_table : ℕ → ℕ → Vm → Vm
map_in_table phys virt v =
    let page = page_phys_addr (v.memory (v.current_pd + 4 * pd_index virt)) + 4 * pt_index virt in
    record v {
      memory = update v.memory page (set_frame (set_attr (v.memory page) pte_present) phys);
      flushed = virt ∷ v.flushed;
    }

-- A new table for a directory entry.
pub add_table : ℕ → ℕ → Vm → Vm
add_table table pde v =
    let cleared = clear_table table v.memory in
    record v { memory = update cleared pde (set_frame (set_attr (cleared pde) 3) table) }

pub map_page : ℕ → ℕ → Vm → Bool × Vm
map_page phys virt v =
    let pde = v.current_pd + 4 * pd_index virt in
    let (table, p) = allocate_blocks 1 v.pmm in
    if bit_and (v.memory pde) pte_present == pte_present
    then (true, map_in_table phys virt v)
    else if table == 0
    then (false, record v { pmm = p })
    else (true, map_in_table phys virt (add_table table pde (record v { pmm = p })))

pub unmap_page : ℕ → Vm → Vm
unmap_page virt v =
    let page = get_page virt v in
    record v {
      memory = update v.memory page (clear_attr (set_frame (v.memory page) 0) pte_present);
    }

-- `for (i < 1024) dir->entries[i] = 0x2`
pub fill_directory : ℕ → ℕ → ℕ → (ℕ → ℕ) → ℕ → ℕ
fill_directory dir zero i m = m
fill_directory dir (suc rounds) i m = fill_directory dir rounds (i + 1) (update m (dir + 4 * i) 2)

-- `frame` and `virt` go up by a page in each round.
pub fill_table : ℕ → ℕ → ℕ → ℕ → (ℕ → ℕ) → ℕ → ℕ
fill_table table zero frame virt m = m
fill_table table (suc rounds) frame virt m =
    fill_table table rounds (u32 (frame + page_size)) (u32 (virt + page_size))
      (update m (table + 4 * pt_index virt) (set_frame (set_attr 0 3) frame))

-- `memset(p, 0, sizeof(p))` clears four bytes, the size of a pointer.
abbrev pub clear_word : ℕ → (ℕ → ℕ) → ℕ → ℕ
clear_word p m = update m p 0

-- The tables, once the blocks for them are there.
pub build_tables : ℕ → ℕ → ℕ → (ℕ → ℕ) → ℕ → ℕ
build_tables dir table table3g m =
    let a = fill_directory dir 1024 0 (clear_word dir m) in
    let b = clear_word table3g (clear_word table a) in
    let c = fill_table table3g 1024 0 0 b in
    let d = fill_table table 1024 kernel_address 0xC000_0000 c in
    let pde = dir + 4 * pd_index 0xC000_0000 in
    let e = update d pde (set_frame (set_attr (d pde) 3) table) in
    let pde2 = dir + 4 * pd_index 0 in update e pde2 (set_frame (set_attr (e pde2) 3) table3g)

-- The order of the source: the directory is filled before the tables are asked for, which a failure
-- of `allocate_blocks` leaves behind.
pub page_manager_init : Vm → Bool × Vm
page_manager_init v =
    let (dir, p) = allocate_blocks 3 v.pmm in
    let (table, q) = allocate_blocks 1 p in
    let (table3g, r) = allocate_blocks 1 q in
    let filled = fill_directory dir 1024 0 (clear_word dir v.memory) in
    if dir == 0
    then (false, record v { pmm = p })
    else if table == 0
    then (false, record v { pmm = q; memory = filled })
    else if table3g == 0
    then (false, record v { pmm = r; memory = filled })
    else (
      true,
      record v {
        pmm = r;
        memory = build_tables dir table table3g v.memory;
        current_pd = dir;
        paging = true;
        fault_handler = true;
      },
    )

-- How the page fault handler ends: it returns, or dumps the registers and stops.
pub data Fault : Type 0 where
  resumed halted : Fault

pub pf_handler : ℕ → ℕ → Vm → Fault × Vm
pf_handler bad_addr ec v =
    let (frame, p) = allocate_blocks 1 v.pmm in
    let (mapped, w) = map_page frame (bit_and bad_addr (not32 0xFFF)) (record v { pmm = p }) in
    if (bit_and ec 1 == 0) && (bit_and ec 4 == 0)
    then if frame == 0
      then (halted, record v { pmm = p })
      else if mapped
      then (resumed, w)
      else (halted, w)
    else (halted, v)
