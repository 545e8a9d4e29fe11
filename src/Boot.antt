-- ===== src/Boot.antt =====
-- src/kernel/main.c: `kernel_main`, from the boot loader's magic number to the loop of `Schedule`.
pub mod Memory
pub mod Welcome
pub mod Running
mod Examples
use splongle_os.Base.{
  codes, ℕ, ◌/◌, Bool, Option, none, some, ◌>>=◌, List, [], ◌∷◌, ◌==◌, if◌then◌else◌,
}
use splongle_os.Console.{Console, clrscr}
use splongle_os.Printk.{printk}
use splongle_os.Pmm.{Pmm, block_size, blocks_per_byte, memory_manager_init, deinitialize_region}
use splongle_os.Memmap.{Info, Entry, get_total_mem, set_type1}
use splongle_os.Paging.{Vm, page_manager_init}
use splongle_os.Interrupts.{Interrupts, pf_handler, isr_register_handler}
use splongle_os.Hal.{Machine, Hardware, hal_init}
use splongle_os.Sched.{Sched, multitasking_init, create_kernel_task}

-- `MEMMAP_AREA`
abbrev pub memmap_area : ℕ
memmap_area = 0x3_0000

-- The calls from `get_total_mem` to the second `deinitialize_region`. `words` is what memory holds
-- where the bitmap is put.
pub setup_memory : (ℕ → Entry) → Info → (ℕ → ℕ) → Pmm
setup_memory entries info words =
    let total = get_total_mem entries info in
    let p = set_type1 entries info (memory_manager_init memmap_area total words) in
    let q = deinitialize_region 0x10_0000 0x20_0000 p in
    deinitialize_region memmap_area (total / block_size / blocks_per_byte) q

-- `MULTIBOOT_BOOTLOADER_MAGIC`
abbrev pub multiboot_bootloader_magic : ℕ
multiboot_bootloader_magic = 0x2BAD_B002

-- The messages before the memory is set up.
pub welcome : ℕ → Console → Option Console
welcome magic s = do
  t ← printk (λ a. []) (codes "\n") [] (clrscr s)
  if magic == multiboot_bootloader_magic
      then printk (λ a. []) (codes "Booted by Multiboot (magic ok)\n") [] t
      else printk (λ a. []) (codes "Not booted by Multiboot: magic=0x%x\n") (magic ∷ []) t

-- The virtual memory, the devices and the tasks.
pub record Kernel : Type 0 where
  pub vm : Vm
  pub machine : Machine
  pub sched : Sched

-- `Page_Manager_Init` with the handler that it registers, on interrupts that are not yet set up.
pub start_paging : Vm → Interrupts → Bool × Vm × Interrupts
start_paging vm interrupts =
    let (paged, after) = page_manager_init vm in
    (paged, after, if paged then isr_register_handler 14 pf_handler interrupts else interrupts)

-- The calls from `get_total_mem` to the loop. `idle` and `shell` are the entries of
-- `kernel_idle_task` and `Shell_Run`; what is printed is left out.
pub kernel_main : (ℕ → Entry) → Info → (ℕ → ℕ) → Hardware → ℕ → ℕ → Kernel → Kernel
kernel_main entries info words hw idle shell k =
    let pmm = setup_memory entries info words in
    let (paged, vm, interrupts) = start_paging (record k.vm { pmm = pmm }) k.machine.interrupts in
    let machine = hal_init hw (record k.machine { interrupts = interrupts }) in
    let cr3 = if paged then vm.current_pd else k.sched.cr3 in
    let tasks = multitasking_init idle (record k.sched { cr3 = cr3 }) in
    record { vm = vm; machine = machine; sched = (create_kernel_task shell tasks).1 }
