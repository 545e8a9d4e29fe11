-- ===== src/Interrupts/Lines.antt =====
-- The handlers of the lines that `HAL_Init` registers, and the gates behind `i686_IRQ_Init`.
use splongle_os.Base.{ℕ, zero, suc, ◌+◌, ◌≤◌, ◌≡◌, refl, arith, true, some, ◌==◌, if◌then◌else◌}
use splongle_os.Ports.{Device}
use splongle_os.Pic.{probe, config}
use splongle_os.Pic.Mask.{IsWired, probe_lem}
use splongle_os.Interrupts.{
  Interrupts, Handler, irq_handler, pf_handler, called, idt_enable_gate, isr_register_handler,
  irq_register_handler, register_irqs, start_irqs, irq_init, isr_initialize, handle_irq, handle_isr,
}
use splongle_os.Interrupts.Gates.{gate}

-- The three handlers that `HAL_Init` registers.
abbrev pub with_lines : Handler → Handler → Handler → Interrupts → Interrupts
with_lines first second eighth s =
    irq_register_handler 8 eighth (irq_register_handler 1 second (irq_register_handler 0 first s))

pub with_lines_lem :
    (j : ℕ) (first second eighth : Handler) (s : Interrupts)
    → s.isr_handlers j ≡ some irq_handler
    → 32 ≤ j
    → handle_isr j (with_lines first second eighth s) ≡ (
        if j == 32
        then called first
        else if j == 33
        then called second
        else if j == 40
        then called eighth
        else handle_irq j s)
unfolding irq_register_handler handle_irq handle_isr
with_lines_lem j first second eighth s e h = ground arith

pub with_lines-same :
    (first second eighth : Handler) (s : Interrupts)
    → let t = with_lines first second eighth s in
      (t.isr_handlers ≡ s.isr_handlers) × (t.idt ≡ s.idt) × (t.pic ≡ s.pic)
unfolding irq_register_handler
with_lines-same first second eighth s = (refl, refl, refl)

pub isr_initialize-same :
    (isr : ℕ → ℕ) (s : Interrupts)
    → let t = isr_initialize isr s in
      (t.isr_handlers ≡ s.isr_handlers) × (t.irq_handlers ≡ s.irq_handlers)
unfolding isr_initialize
isr_initialize-same isr s = (refl, refl)

pub isr_register_handler-same :
    (j : ℕ) (h : Handler) (s : Interrupts)
    → let t = isr_register_handler j h s in
      (t.isr_handlers j ≡ some h) × (t.irq_handlers ≡ s.irq_handlers)
unfolding isr_register_handler
isr_register_handler-same j h s = (ground arith, refl)

pub handle_isr-pf_handler :
    (j : ℕ) (s : Interrupts)
    → s.isr_handlers j ≡ some pf_handler
    → handle_isr j s ≡ called pf_handler
unfolding handle_isr
handle_isr-pf_handler j s e = rw (e, handle_isr) refl

-- A gate that is present stays as it is.
register_irqs-gate :
    (rounds i j base : ℕ) (s : Interrupts)
    → s.idt j ≡ gate 0x8E base
    → (register_irqs rounds i s).idt j ≡ gate 0x8E base
unfolding register_irqs isr_register_handler idt_enable_gate
register_irqs-gate zero i j base s e = e
register_irqs-gate (suc rounds) i j base s e =
    register_irqs-gate rounds (i + 1) j base (isr_register_handler (32 + i) irq_handler s)
      (ground (arith, e))

pub irq_init-gate :
    (device : Device) (j base : ℕ) (s : Interrupts)
    → IsWired device
    → s.idt j ≡ gate 0x8E base
    → (irq_init device s).idt j ≡ gate 0x8E base
unfolding irq_init start_irqs
irq_init-gate device j base s w e =
    let p = (probe device s.pic).1 in
    rw (probe_lem device s.pic w)
      (register_irqs-gate 16 0 j base (record s { pic = config 32 40 p; found = true }) e)
