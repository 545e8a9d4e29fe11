-- ===== src/Hal.antt =====
-- src/kernel/hal/hal.c: `HAL_Init`, over the descriptor tables, the interrupts, the timer, the
-- keyboard, the clock and the PCI bus. Each part keeps the log of the accesses that it makes.
pub mod Ready
pub mod Sample
mod Examples
use splongle_os.Base.{ℕ, ◌*◌, ◌-◌, length}
use splongle_os.Ports.{Bus, Device}
use splongle_os.Gdt.{g_gdt}
use splongle_os.Interrupts.{
  Interrupts, pit_handler, keyboard_handler, rtc_handler, isr_initialize, irq_init,
  irq_register_handler,
}
use splongle_os.Timer.{Timer, set_pit_channel_mode_frequency}
use splongle_os.Rtc.{enable_rtc}
use splongle_os.Pci.{Bar, Walk, select_drivers}

-- `GDTDescriptor` and `IDTDescriptor`: the last byte of a table, and its address.
pub record TableDescriptor : Type 0 where
  pub limit : ℕ
  pub address : ℕ

-- What `lgdt` and `lidt` load, the selectors of the kernel's segments, and the parts.
pub record Machine : Type 0 where
  pub gdtr : TableDescriptor
  pub code_selector : ℕ
  pub data_selector : ℕ
  pub idtr : TableDescriptor
  pub interrupts : Interrupts
  pub timer : Timer
  pub clock : Bus
  pub pci : Walk

-- A `GDTEntry` and an `IDTEntry` have eight bytes. `table` is the address of `g_GDT`.
pub gdt_initialize : ℕ → Machine → Machine
gdt_initialize table m = record m {
  gdtr = record { limit = 8 * length g_gdt - 1; address = table };
  code_selector = 0x08;
  data_selector = 0x10;
}

-- `table` is the address of `g_IDT`.
pub idt_initialize : ℕ → Machine → Machine
idt_initialize table m = record m { idtr = record { limit = 8 * 256 - 1; address = table } }

pub pit_init : Interrupts → Interrupts
pit_init s = irq_register_handler 0 pit_handler s

pub keyboard_init : Interrupts → Interrupts
keyboard_init s = irq_register_handler 1 keyboard_handler s

pub rtc_init : Interrupts → Interrupts
rtc_init s = irq_register_handler 8 rtc_handler s

-- The addresses of the two tables and of the stubs, and what is attached to the ports.
pub record Hardware : Type 0 where
  pub gdt : ℕ
  pub idt : ℕ
  pub isr : ℕ → ℕ
  pub pic_ports : Device
  pub rtc_ports : Device
  pub pci_ports : Device
  pub stack : Bus → Bar

-- The messages on the way are left out.
pub hal_init : Hardware → Machine → Machine
hal_init hw m =
    let loaded = idt_initialize hw.idt (gdt_initialize hw.gdt m) in
    let started = irq_init hw.pic_ports (isr_initialize hw.isr loaded.interrupts) in
    record loaded {
      timer = set_pit_channel_mode_frequency 0 2 11932 loaded.timer;
      interrupts = rtc_init (keyboard_init (pit_init started));
      clock = enable_rtc hw.rtc_ports loaded.clock;
      pci = select_drivers hw.pci_ports hw.stack loaded.pci;
    }
