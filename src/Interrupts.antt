-- ===== src/Interrupts.antt =====
-- src/kernel/arch/i686/idt.c, isr.c, isrs_gen.c and irq.c: the gates of the interrupt table, the
-- handlers behind them, and which handler an interrupt ends in. The addresses of the stubs, which
-- isr.asm defines, are a parameter.
pub mod Gates
pub mod Dispatch
pub mod Lines
pub mod Panic
mod Examples
use splongle_os.Base.{
  ℕ, zero, suc, ◌+◌, ◌-◌, bit_and, bit_or, Bool, true, false, Option, none, some, ltb, ◌==◌,
  if◌then◌else◌, u8, u16, ◌>>◌, update, not32,
}
use splongle_os.Ports.{Device, enable_ints}
use splongle_os.Pic.{Pic, probe, config, unmask_irq}

pub record IdtEntry : Type 0 where
  pub base_low : ℕ
  pub segment_selector : ℕ
  pub reserved : ℕ
  pub flags : ℕ
  pub base_hi : ℕ

-- The functions that the kernel registers: `i686_IRQ_Handler` and `PFHandler` for interrupts, the
-- others for the lines of the interrupt controller.
pub data Handler : Type 0 where
  irq_handler pf_handler pit_handler keyboard_handler rtc_handler int14 int15 : Handler

-- `g_IDT`, `g_ISRHandlers`, `g_IRQHandlers`, whether `g_Driver` is set, and the controllers.
pub record Interrupts : Type 0 where
  pub idt : ℕ → IdtEntry
  pub isr_handlers : ℕ → Option Handler
  pub irq_handlers : ℕ → Option Handler
  pub found : Bool
  pub pic : Pic

abbrev pub code_segment : ℕ
code_segment = 0x08

-- `IDT_FLAG_RING0 | IDT_FLAG_GATE_32BIT_INT`
abbrev pub interrupt_gate : ℕ
interrupt_gate = 0x0E

abbrev pub idt_flag_present : ℕ
idt_flag_present = 0x80

abbrev pub pic_remap_offset : ℕ
pic_remap_offset = 0x20

pub idt_set_gate : ℕ → ℕ → ℕ → ℕ → (ℕ → IdtEntry) → ℕ → IdtEntry
idt_set_gate interrupt base segment_descriptor flags idt = update idt interrupt (record {
  base_low = u16 (bit_and base 0xFFFF);
  segment_selector = u16 segment_descriptor;
  reserved = 0;
  flags = u8 flags;
  base_hi = u16 (bit_and (base >> 16) 0xFFFF);
})

pub idt_enable_gate : ℕ → (ℕ → IdtEntry) → ℕ → IdtEntry
idt_enable_gate interrupt idt =
    update idt interrupt
      (record (idt interrupt) { flags = u8 (bit_or (idt interrupt).flags idt_flag_present) })

pub idt_disable_gate : ℕ → (ℕ → IdtEntry) → ℕ → IdtEntry
idt_disable_gate interrupt idt =
    update idt interrupt (record (idt interrupt) {
      flags = u8 (bit_and (idt interrupt).flags (not32 idt_flag_present));
    })

-- The 256 calls of `i686_IDT_SetGate`, one for each stub in order.
pub initialize_gates : (ℕ → ℕ) → ℕ → ℕ → (ℕ → IdtEntry) → ℕ → IdtEntry
initialize_gates isr zero i idt = idt
initialize_gates isr (suc rounds) i idt =
    initialize_gates isr rounds (i + 1) (idt_set_gate i (isr i) code_segment interrupt_gate idt)

-- `for (int i = 0; i < 256; ++i) i686_IDT_EnableGate(i);`
pub enable_gates : ℕ → ℕ → (ℕ → IdtEntry) → ℕ → IdtEntry
enable_gates zero i idt = idt
enable_gates (suc rounds) i idt = enable_gates rounds (i + 1) (idt_enable_gate i idt)

pub isr_initialize : (ℕ → ℕ) → Interrupts → Interrupts
isr_initialize isr s = record s { idt = enable_gates 256 0 (initialize_gates isr 256 0 s.idt) }

pub isr_register_handler : ℕ → Handler → Interrupts → Interrupts
isr_register_handler interrupt handler s = record s {
  isr_handlers = update s.isr_handlers interrupt (some handler);
  idt = idt_enable_gate interrupt s.idt;
}

pub irq_register_handler : ℕ → Handler → Interrupts → Interrupts
irq_register_handler irq handler s = record s {
  irq_handlers = update s.irq_handlers irq (some handler);
}

-- How an interrupt ends: a handler runs, a message is printed, or the kernel panics.
pub data Outcome : Type 0 where
  called : Handler → Outcome
  unhandled_irq unhandled_interrupt panic : ℕ → Outcome

pub handle_irq : ℕ → Interrupts → Outcome
handle_irq interrupt s =
    let irq = interrupt - pic_remap_offset in
    elim (s.irq_handlers irq) [ some handler ↦ called handler | none ↦ unhandled_irq irq ]

-- `i686_ISR_Handler`, into `i686_IRQ_Handler` where that is registered.
pub handle_isr : ℕ → Interrupts → Outcome
handle_isr interrupt s = elim (s.isr_handlers interrupt) [
  | some irq_handler ↦ handle_irq interrupt s
  | some handler ↦ called handler
  | none ↦ if ltb interrupt 32 then panic interrupt else unhandled_interrupt interrupt
]

-- `for (int i = 0; i < 16; ++i) i686_ISR_RegisterHandler(PIC_REMAP_OFFSET + i, i686_IRQ_Handler);`
pub register_irqs : ℕ → ℕ → Interrupts → Interrupts
register_irqs zero i s = s
register_irqs (suc rounds) i s =
    register_irqs rounds (i + 1) (isr_register_handler (pic_remap_offset + i) irq_handler s)

-- The lines of the timer, the keyboard, the second controller, the clock and the mouse.
abbrev pub unmask_lines : Pic → Pic
unmask_lines p = unmask_irq 12 (unmask_irq 8 (unmask_irq 2 (unmask_irq 1 (unmask_irq 0 p))))

-- The second half of `i686_IRQ_Init`, once a controller is found.
pub start_irqs : Interrupts → Interrupts
start_irqs s =
    let t =
      register_irqs 16 0
        (record s { pic = config pic_remap_offset (pic_remap_offset + 8) s.pic }) in
    record t { pic = unmask_lines (record t.pic { bus = enable_ints t.pic.bus }) }

-- There is one driver to look for.
pub irq_init : Device → Interrupts → Interrupts
irq_init device s =
    let (working, p) = probe device s.pic in
    let found = if working then true else s.found in
    let t = record s { pic = p; found = found } in if found then start_irqs t else t
