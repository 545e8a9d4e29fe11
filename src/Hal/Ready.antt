-- ===== src/Hal/Ready.antt =====
-- What is ready when `HAL_Init` returns.
use splongle_os.Base.{
  ℕ, ◌+◌, ◌<◌, List, ◌∷◌, ◌++◌, map, ◌≡◌, refl, arith, ◌∙◌, ap, true, false, ◌&&◌, ltb, leb, ◌==◌,
  if◌then◌else◌, some,
}
use splongle_os.Base.Bits.{bit}
use splongle_os.Ports.{wrote8, last_byte, enable_ints, disable_ints}
use splongle_os.Pic.Mask.{IsWired, programmed}
use splongle_os.Pic.Vectors.{IsRemapped, vector, vector_lem}
use splongle_os.Interrupts.{
  Interrupts, Outcome, irq_handler, called, pit_handler, keyboard_handler, rtc_handler,
  isr_initialize, irq_init, handle_isr, handle_irq,
}
use splongle_os.Interrupts.Dispatch.{
  irq_init_lem, irq_init-handlers, irq_init-IsRemapped, handle_irq-same,
}
use splongle_os.Interrupts.Gates.{gate, isr_initialize-gate}
use splongle_os.Interrupts.Lines.{
  with_lines_lem, with_lines-same, irq_init-gate, isr_initialize-same,
}
use splongle_os.Timer.Rate.{set_pit_channel_mode_frequency_lem}
use splongle_os.Rtc.Handler.{IsSteady}
use splongle_os.Rtc.Periodic.{periodic_lem}
use splongle_os.Pci.Scan.{IsConfigSpace, Place, place, functions, present, each, select_drivers_lem}
use splongle_os.Hal.{
  Machine, Hardware, gdt_initialize, idt_initialize, pit_init, keyboard_init, rtc_init, hal_init,
}

-- Where the interrupt of one of the sixteen lines ends: those of the timer, the keyboard and the
-- clock in their handlers, the others as before.
abbrev pub ends_in : ℕ → Interrupts → Outcome
ends_in line s =
    if line == 0
    then called pit_handler
    else if line == 1
    then called keyboard_handler
    else if line == 8
    then called rtc_handler
    else handle_irq (32 + line) s

pub ends_in-same :
    (line : ℕ) (s t : Interrupts)
    → t.irq_handlers ≡ s.irq_handlers
    → ends_in line t ≡ ends_in line s
ends_in-same line s t e = ground (arith, handle_irq-same (32 + line) s t e)

-- The functions that are there on the eight buses, in order.
abbrev pub all_places : (ℕ → ℕ) → List Place
all_places config =
    each 8 0 (λ b. each 32 0 (λ d. each (functions config b d) 0 (present config b d)))

-- The machine `t`, started from `m` with the clock's registers and the configuration space.
pub record IsStarted (hw : Hardware) (registers : ℕ → ℕ) (config : ℕ → ℕ) (m t : Machine)
    : Type 0 where
  pub segments : (t.gdtr.limit ≡ 23) × (t.gdtr.address ≡ hw.gdt)
  pub table : (t.idtr.limit ≡ 2047) × (t.idtr.address ≡ hw.idt)
  pub gates : (j : ℕ) → j < 256 → t.interrupts.idt j ≡ gate 0x8E (hw.isr j)
  pub remapped : IsRemapped t.interrupts.pic.bus
  pub lines :
      (line : ℕ)
      → line < 16
      → handle_isr (vector line t.interrupts.pic.bus) t.interrupts ≡ ends_in line m.interrupts
  pub others :
      (j : ℕ)
      → (leb 32 j && ltb j 48) ≡ false
      → t.interrupts.isr_handlers j ≡ m.interrupts.isr_handlers j
  pub mask : programmed t.interrupts.pic ≡ 0xEEF8
  pub rate :
      t.timer.bus
      ≡ enable_ints
          (wrote8 0x40 0x2E ∷ wrote8 0x40 0x9C ∷ wrote8 0x43 0x34 ∷ disable_ints m.timer.bus)
  pub periodic :
      (k : ℕ)
      → k < 8
      → bit k (last_byte 0x71 t.clock) ≡ (if k == 6 then 1 else bit k (registers 11))
  pub drivers :
      (map place t.pci.found ≡ map place m.pci.found ++ all_places config)
      × (t.pci.manager ≡ m.pci.manager)

-- `HAL_Init`, on interrupt controllers that answer with the masks they are given, a clock that
-- answers with its registers and a bus that answers from a configuration space: the descriptor
-- tables are loaded with their sizes; each of the 256 gates leads to its stub and is present; both
-- controllers have been sent their four initialisation words, cascaded at line 2, and each of the
-- sixteen lines raises the vector that follows from these words, which ends in the handlers of the
-- timer, the keyboard and the clock for their lines and as before for the others; the handlers of
-- other interrupts are kept; the lines 0, 1, 2, 8 and 12 alone are let through; the timer has the
-- divider 11932, low byte first; the last byte for the clock's registers is that of register 11
-- with bit 6 set; and the functions on the eight buses are listed, with no driver added.
pub hal_init-IsStarted :
    (hw : Hardware) (registers config : ℕ → ℕ) (m : Machine)
    → IsWired hw.pic_ports
    → IsSteady registers hw.rtc_ports
    → IsConfigSpace hw.pci_ports config
    → IsStarted hw registers config m (hal_init hw m)
unfolding hal_init pit_init keyboard_init rtc_init gdt_initialize idt_initialize
hal_init-IsStarted hw registers config m wired steady answers =
    let s = isr_initialize hw.isr m.interrupts in
    let u = irq_init hw.pic_ports s in
    let before = isr_initialize-same hw.isr m.interrupts in
    let kept = λ (j : ℕ).
      handle_irq-same j s u (irq_init-handlers hw.pic_ports j s wired).1
      ∙ handle_irq-same j m.interrupts s before.1 in
    let same = with_lines-same pit_handler keyboard_handler rtc_handler u in
    let t = hal_init hw m in
    let sent = irq_init-IsRemapped hw.pic_ports s wired in
    let remapped : IsRemapped t.interrupts.pic.bus = rw (same.2) sent in
    record {
      segments = (refl, refl);
      table = (refl, refl);
      gates = λ j h.
          ap (λ f. f j) same.1
          ∙ irq_init-gate hw.pic_ports j (hw.isr j) s wired
              (isr_initialize-gate hw.isr j m.interrupts h);
      remapped = remapped;
      lines = λ line h.
          let j = 32 + line in
          let raised : vector line t.interrupts.pic.bus ≡ j = vector_lem line _ remapped h in
          let range : (leb 32 j && ltb j 48) ≡ true = ground (arith, h) in
          let to_irq : u.isr_handlers j ≡ some irq_handler =
            (irq_init-handlers hw.pic_ports j s wired).0 ∙ rw range refl in
          let ends =
            with_lines_lem j pit_handler keyboard_handler rtc_handler u to_irq (omega arith) in
          ap (λ x. handle_isr x t.interrupts) raised ∙ ends ∙ ground (arith, kept j);
      others = λ j out.
          ap (λ f. f j) same.0
          ∙ (irq_init-handlers hw.pic_ports j s wired).0
          ∙ rw out (ap (λ f. f j) before.0);
      mask = ap programmed same.2 ∙ (irq_init_lem hw.pic_ports 0 s wired).3;
      rate =
          ap (λ t. t.bus)
            (set_pit_channel_mode_frequency_lem 0 2 11932 m.timer (omega arith) (omega arith)
              (omega arith));
      periodic = λ k h. (periodic_lem registers hw.rtc_ports k m.clock steady h).0;
      drivers = select_drivers_lem hw.pci_ports config hw.stack m.pci answers;
    }
