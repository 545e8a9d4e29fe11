-- ===== src/Boot/Examples.antt =====
-- A machine with 64 MiB, and the claims about it.
use splongle_os.Base.{
  ℕ, ◌≤◌, ◌<◌, ◌≡◌, ◌⊎◌, refl, arith, [], ◌∷◌, true, false, none, ◌==◌, if◌then◌else◌,
}
use splongle_os.Pmm.{check_block, allocate_blocks}
use splongle_os.Memmap.{Info, Entry}
use splongle_os.Memmap.Walk.{LaidOut, visit}
use splongle_os.Memmap.Regions.{marked, AllBounded}
use splongle_os.Boot.{Kernel, setup_memory, kernel_main}
use splongle_os.Boot.Running.{IsRunning, kernel_main-IsRunning}
use splongle_os.Hal.Sample.{hardware, numbers, bridge, power_on, numbers-IsSteady}
use splongle_os.Paging.{page_manager_init}
use splongle_os.Boot.Memory.{setup_memory_lem, setup_memory-allocate}

abbrev low : Entry
low = record { size = 20; base = 0; length = 0xA_0000; kind = 1 }

abbrev high : Entry
high = record { size = 20; base = 0xA_0000; length = 0x3F6_0000; kind = 1 }

abbrev at_address : ℕ → Entry
at_address a = if a == 0x1000 then low else high

abbrev info : Info
info = record {
  flags = 0x40;
  mem_lower = 640;
  mem_upper = 0xFC00;
  mmap_length = 48;
  mmap_addr = 0x1000;
}

info-LaidOut : LaidOut at_address info 0 (low ∷ high ∷ [])
info-LaidOut = (refl, omega arith, (refl, omega arith, refl))

all-AllBounded : AllBounded (low ∷ high ∷ [])
all-AllBounded = (omega arith, (omega arith, refl))

-- Block 0x30, where the bitmap lies, is as the map says: free.
setup_memory_lem_example :
    check_block 0x30 (setup_memory at_address info (λ i. 0))
    ≡ visit (marked 0x30) (low ∷ high ∷ []) true
setup_memory_lem_example =
    setup_memory_lem at_address info (low ∷ high ∷ []) (λ i. 0) (omega arith) info-LaidOut
      all-AllBounded (omega arith) (omega arith) 0x30 (omega arith) (omega arith)

setup_memory-allocate_example :
    let address = (allocate_blocks 1 (setup_memory at_address info (λ i. 0))).0 in
    (address ≡ 0) ⊎ ((address < 0x10_0000) ⊎ (0x30_0000 ≤ address))
setup_memory-allocate_example =
    setup_memory-allocate at_address info (low ∷ high ∷ []) (λ i. 0) (omega arith) info-LaidOut
      all-AllBounded (omega arith) (omega arith) 1 (omega arith) (omega arith)

abbrev kernel : Kernel
kernel = record {
  vm = record {
    memory = λ a. 0;
    pmm = record { memory_map = λ i. 0; map_address = 0; max_blocks = 0; used_blocks = 0 };
    current_pd = 0;
    paging = false;
    fault_handler = false;
    flushed = [];
  };
  machine = power_on;
  sched = record {
    tasks = λ i. record {
      esp = 0;
      esp0 = 0;
      cr3 = 0;
      next = none;
      state = 0;
      task_id = 0;
      entrypoint = 0;
    };
    used = λ i. false;
    current_task = 0;
    first_ready = none;
    last_ready = none;
    idle_task = none;
    num_tasks = 0;
    next_id = 0;
    task_switches_postponed = false;
    postpone_counter = 0;
    irq_disable_counter = 0;
    tss_esp0 = 0;
    esp = 0x8000;
    cr3 = 0;
    interrupts = false;
    kernel_stacks = 0x4_0000;
    memory = λ a. 0;
  };
}

kernel_main-IsRunning_example :
    IsRunning hardware numbers bridge kernel
      (kernel_main at_address info (λ i. 0) hardware 0x10_3000 0x10_2000 kernel)
      (page_manager_init (record kernel.vm { pmm = setup_memory at_address info (λ i. 0) })).0
      0x10_2000
kernel_main-IsRunning_example =
    kernel_main-IsRunning at_address info (λ i. 0) hardware numbers bridge 0x10_3000 0x10_2000
      kernel (record { first = λ bus. refl; second = λ bus. refl }) numbers-IsSteady (λ log. refl)
      refl
