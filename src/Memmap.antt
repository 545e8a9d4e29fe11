-- ===== src/Memmap.antt =====
-- src/kernel/memory/memmap.c: the memory map of the boot loader, and what the physical memory
-- manager makes of it. The structures at the addresses of the map are a parameter.
pub mod Walk
pub mod Regions
pub mod Print
mod Examples
use splongle_os.Base.{ℕ, zero, suc, ◌+◌, ◌-◌, bit_and, ltb, leb, ◌==◌, if◌then◌else◌, u32, u64}
use splongle_os.Pmm.{Pmm, four_gib, initialize_region, deinitialize_region}

-- The fields of `multiboot_info_t` that are read here.
pub record Info : Type 0 where
  pub flags : ℕ
  pub mem_lower : ℕ
  pub mem_upper : ℕ
  pub mmap_length : ℕ
  pub mmap_addr : ℕ

-- `multiboot_memory_map_t`
pub record Entry : Type 0 where
  pub size : ℕ
  pub base : ℕ
  pub length : ℕ
  pub kind : ℕ

-- `MULTIBOOT_INFO_MEM_MAP`
abbrev pub has_mem_map : ℕ
has_mem_map = 0x40

-- `MULTIBOOT_MEMORY_AVAILABLE`
abbrev pub available : ℕ
available = 1

-- `while (offset < mmap_len) { ...; offset += entry->size + sizeof(entry->size); }`
pub walk {ℓ} : {A : Type ℓ} → (Entry → A → A) → (ℕ → Entry) → Info → ℕ → ℕ → A → A
walk step entries info zero offset acc = acc
walk step entries info (suc fuel) offset acc =
    let entry = entries (u32 (info.mmap_addr + offset)) in
    let rest = walk step entries info fuel (u32 (offset + (entry.size + 4))) (step entry acc) in
    if ltb offset info.mmap_length then rest else acc

abbrev pub add_length : Entry → ℕ → ℕ
add_length entry total = u64 (total + entry.length)

abbrev pub add_free : Entry → ℕ → ℕ
add_free entry free = if entry.kind == 1 then u64 (free + entry.length) else free

abbrev pub add_one : Entry → ℕ → ℕ
add_one entry count = u64 (count + 1)

-- An entry is at least four bytes long.
pub get_total_mem : (ℕ → Entry) → Info → ℕ
get_total_mem entries info =
    if bit_and info.flags has_mem_map == 0
    then 0
    else walk add_length entries info info.mmap_length 0 0

pub get_num_entries : (ℕ → Entry) → Info → ℕ
get_num_entries entries info =
    if bit_and info.flags has_mem_map == 0
    then 0
    else u32 (walk add_one entries info info.mmap_length 0 0)

-- The region that is left of an entry below 4 GiB, and what is done with it.
pub set_entry : Entry → Pmm → Pmm
set_entry entry p =
    let end = u64 (entry.base + entry.length) in
    let length = if ltb four_gib end then four_gib - entry.base else entry.length in
    if leb four_gib entry.base
    then p
    else if entry.kind == available
    then initialize_region (u32 entry.base) length p
    else deinitialize_region (u32 entry.base) length p

pub set_type1 : (ℕ → Entry) → Info → Pmm → Pmm
set_type1 entries info p = walk set_entry entries info info.mmap_length 0 p
