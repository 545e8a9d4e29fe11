-- ===== src/Hal/Sample.antt =====
-- A machine at power on, which the examples start.
use splongle_os.Base.{ℕ, ◌+◌, ◌*◌, ◌%◌, ◌^◌, arith, false, none, [], ◌==◌, if◌then◌else◌}
use splongle_os.Ports.{last_byte, last_word}
use splongle_os.Interrupts.{Interrupts}
use splongle_os.Rtc.Handler.{IsSteady}
use splongle_os.Hal.{Machine, Hardware}

-- A clock whose registers hold their own numbers.
abbrev pub numbers : ℕ → ℕ
numbers r = r % 128

-- The configuration space of a bus with one device, a host bridge.
abbrev pub bridge : ℕ → ℕ
bridge n = if n == 2 ^ 31 then 0x12378086 else if n == 2 ^ 31 + 12 then 0 else 0xFFFFFFFF

abbrev pub hardware : Hardware
hardware = record {
  gdt = 0x10_8000;
  idt = 0x10_9000;
  isr = λ i. 0x10_0000 + 16 * i;
  pic_ports = λ bus port. last_byte port bus;
  rtc_ports = λ bus port. last_byte 0x70 bus % 128;
  pci_ports = λ log port. bridge (last_word 0xCF8 log);
  stack = λ log. record { prefetchable = false; address = 0; kind = 0 };
}

abbrev empty : Interrupts
empty = record {
  idt = λ i. record { base_low = 0; segment_selector = 0; reserved = 0; flags = 0; base_hi = 0 };
  isr_handlers = λ i. none;
  irq_handlers = λ i. none;
  found = false;
  pic = record { mask = 0xFFFF; bus = [] };
}

abbrev pub power_on : Machine
power_on = record {
  gdtr = record { limit = 0; address = 0 };
  code_selector = 0x10;
  data_selector = 0x18;
  idtr = record { limit = 0; address = 0 };
  interrupts = empty;
  timer = record { ticks = 0; bus = [] };
  clock = [];
  pci = record { manager = record { drivers = λ i. 0; num_drivers = 0 }; found = []; log = [] };
}

pub numbers-IsSteady : IsSteady numbers hardware.rtc_ports
numbers-IsSteady = record {
  answer = λ bus. omega arith;
  bytes = λ r. omega arith;
  ready = omega arith;
}
