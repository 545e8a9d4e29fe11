-- ===== src/Boot/Running.antt =====
-- What runs when `kernel_main` has reached its loop.
use splongle_os.Base.{
  ℕ, ◌<◌, ◌∷◌, ◌++◌, map, ◌≡◌, refl, ◌∙◌, Bool, true, false, some, none, ◌==◌, if◌then◌else◌,
}
use splongle_os.Base.Bits.{bit}
use splongle_os.Ports.{wrote8, last_byte, enable_ints, disable_ints}
use splongle_os.Pic.Vectors.{IsRemapped, vector}
use splongle_os.Rtc.Handler.{IsSteady}
use splongle_os.Pci.Scan.{IsConfigSpace, place}
use splongle_os.Pic.Mask.{IsWired, programmed}
use splongle_os.Interrupts.{Interrupts, called, pf_handler, handle_isr, isr_register_handler}
use splongle_os.Interrupts.Gates.{gate}
use splongle_os.Interrupts.Lines.{isr_register_handler-same, handle_isr-pf_handler}
use splongle_os.Memmap.{Info, Entry}
use splongle_os.Paging.{page_manager_init}
use splongle_os.Hal.{Hardware}
use splongle_os.Hal.Ready.{ends_in, ends_in-same, all_places, hal_init-IsStarted}
use splongle_os.Sched.{ready_to_run, schedule}
use splongle_os.Sched.Start.{shell_runs}
use splongle_os.Boot.{Kernel, setup_memory, start_paging, kernel_main}

-- The kernel `k` at the end of `kernel_main`; `paged` tells whether paging could be started.
pub record IsRunning (hw : Hardware) (registers : ℕ → ℕ) (config : ℕ → ℕ) (start k : Kernel)
    (paged : Bool) (shell : ℕ) : Type 0 where
  pub gates : (j : ℕ) → j < 256 → k.machine.interrupts.idt j ≡ gate 0x8E (hw.isr j)
  pub remapped : IsRemapped k.machine.interrupts.pic.bus
  pub lines :
      (line : ℕ)
      → line < 16
      → handle_isr (vector line k.machine.interrupts.pic.bus) k.machine.interrupts
        ≡ ends_in line start.machine.interrupts
  pub mask : programmed k.machine.interrupts.pic ≡ 0xEEF8
  pub rate :
      k.machine.timer.bus
      ≡ enable_ints (
          wrote8 0x40 0x2E
          ∷ wrote8 0x40 0x9C
          ∷ wrote8 0x43 0x34
          ∷ disable_ints start.machine.timer.bus)
  pub periodic :
      (b : ℕ)
      → b < 8
      → bit b (last_byte 0x71 k.machine.clock) ≡ (if b == 6 then 1 else bit b (registers 11))
  pub drivers :
      map place k.machine.pci.found ≡ map place start.machine.pci.found ++ all_places config
  pub faults : paged ≡ true → handle_isr 14 k.machine.interrupts ≡ called pf_handler
  pub task : (schedule k.sched).current_task ≡ 2
  pub entry : ((schedule k.sched).tasks 2).entrypoint ≡ shell
  pub space : (schedule k.sched).cr3 ≡ (if paged then k.vm.current_pd else start.sched.cr3)
  pub waiting : ((schedule k.sched).tasks 0).state ≡ ready_to_run
  pub ready : ((schedule k.sched).first_ready ≡ some 1) × (((schedule k.sched).tasks 1).next ≡ none)

register-irq_handlers :
    (paged : Bool) (s : Interrupts)
    → (if paged then isr_register_handler 14 pf_handler s else s).irq_handlers ≡ s.irq_handlers
register-irq_handlers true s = (isr_register_handler-same 14 pf_handler s).1
register-irq_handlers false s = refl

register-fault :
    (paged : Bool) (s : Interrupts)
    → paged ≡ true
    → (if paged then isr_register_handler 14 pf_handler s else s).isr_handlers 14 ≡ some pf_handler
register-fault paged s e = rw e (isr_register_handler-same 14 pf_handler s).0

-- When `kernel_main` reaches its loop, on interrupt controllers that answer with the masks they
-- are given, a clock that answers with its registers, a bus that answers from a configuration
-- space, and with no switch postponed at first: all gates lead to their stubs; both controllers
-- have been sent their four initialisation words, and of the sixteen lines, each raising the
-- vector that follows from these words, those of the timer, the keyboard and the clock end in
-- their handlers and the others as before; the five lines are let through; the timer has its
-- divider and the clock its periodic interrupt; the functions on the bus are listed; and page
-- faults end in `PFHandler` if paging was started. The first `Schedule` runs the shell, in the
-- address space of the page directory if paging was started; the main task waits, marked as ready,
-- but the list is the idle task alone.
pub kernel_main-IsRunning :
    (entries : ℕ → Entry) (info : Info) (words : ℕ → ℕ) (hw : Hardware) (registers config : ℕ → ℕ)
    (idle shell : ℕ) (k : Kernel)
    → IsWired hw.pic_ports
    → IsSteady registers hw.rtc_ports
    → IsConfigSpace hw.pci_ports config
    → k.sched.postpone_counter ≡ 0
    → let paged = (page_manager_init (record k.vm { pmm = setup_memory entries info words })).0 in
      IsRunning hw registers config k (kernel_main entries info words hw idle shell k) paged shell
unfolding kernel_main start_paging
kernel_main-IsRunning entries info words hw registers config idle shell k wired steady answers
      free =
    let (paged, vm) = page_manager_init (record k.vm { pmm = setup_memory entries info words }) in
    let before = k.machine.interrupts in
    let interrupts = if paged then isr_register_handler 14 pf_handler before else before in
    let machine = record k.machine { interrupts = interrupts } in
    let started = hal_init-IsStarted hw registers config machine wired steady answers in
    let cr3 = if paged then vm.current_pd else k.sched.cr3 in
    let shell_first = shell_runs idle shell (record k.sched { cr3 = cr3 }) free in
    record {
      gates = started.gates;
      remapped = started.remapped;
      rate = started.rate;
      periodic = started.periodic;
      drivers = started.drivers.0;
      lines = λ line h.
          started.lines line h
          ∙ ends_in-same line before interrupts (register-irq_handlers paged before);
      mask = started.mask;
      faults =
          λ e. handle_isr-pf_handler 14 _ (started.others 14 refl ∙ register-fault paged before e);
      task = shell_first.1;
      entry = shell_first.2;
      space = shell_first.3;
      waiting = shell_first.4;
      ready = (shell_first.5, shell_first.6);
    }
