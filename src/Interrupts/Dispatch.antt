-- ===== src/Interrupts/Dispatch.antt =====
-- Where an interrupt ends, once the handlers are registered.
use splongle_os.Base.{
  ℕ, zero, suc, ◌+◌, ◌-◌, ◌^◌, ◌<◌, ◌≡◌, ◌≢◌, refl, arith, ◌∙◌, ap, true, Bool-cases, Option, some,
  inl, inr, ltb, leb, ◌&&◌, if◌then◌else◌,
}
use splongle_os.Ports.{Device, enable_ints}
use splongle_os.Pic.{Pic, probe, config, unmask_irq}
use splongle_os.Pic.Mask.{
  IsWired, programmed, probe_lem, unmask_irq_lem, unmask_irq-mask, config-mask,
}
use splongle_os.Pic.Vectors.{IsRemapped, config-IsRemapped, unmask_irq-IsRemapped}
use splongle_os.Interrupts.{
  Handler, irq_handler, Interrupts, called, isr_register_handler, irq_register_handler, handle_irq,
  handle_isr, register_irqs, start_irqs, irq_init, unmask_lines,
}

pub register_irqs_lem :
    (rounds i j : ℕ) (s : Interrupts)
    → let t = register_irqs rounds i s in
      (t.isr_handlers j ≡ (
        if leb (32 + i) j && ltb j (32 + i + rounds) then some irq_handler else s.isr_handlers j))
      × (t.irq_handlers ≡ s.irq_handlers)
      × (t.pic ≡ s.pic)
      × (t.found ≡ s.found)
unfolding register_irqs isr_register_handler
register_irqs_lem zero i j s = (ground arith, refl, refl, refl)
register_irqs_lem (suc rounds) i j s =
    let rest = register_irqs_lem rounds (i + 1) j (isr_register_handler (32 + i) irq_handler s) in
    (rest.0 ∙ ground arith, rest.1, rest.2, rest.3)

-- The mask with the five lines let through.
unmask_lines_lem :
    (p : Pic)
    → p.mask ≡ 0xFFFF
    → ((unmask_lines p).mask ≡ 0xEEF8) × (programmed (unmask_lines p) ≡ 0xEEF8)
unmask_lines_lem p h =
    let mask : (unmask_lines p).mask ≡ 0xEEF8 =
      rw
        (
          unmask_irq-mask 12 _,
          unmask_irq-mask 8 _,
          unmask_irq-mask 2 _,
          unmask_irq-mask 1 _,
          unmask_irq-mask 0 p,
          h,
        )
        refl in
    let before : (unmask_irq 8 (unmask_irq 2 (unmask_irq 1 (unmask_irq 0 p)))).mask < 2 ^ 16 =
      rw (unmask_irq-mask 8 _) (omega arith) in
    let told =
      (unmask_irq_lem 12 12 (unmask_irq 8 (unmask_irq 2 (unmask_irq 1 (unmask_irq 0 p))))
        (omega arith) (omega arith) before).1 in
    (mask, told ∙ mask)

-- The handlers alone say where an interrupt ends.
pub handle_irq-same :
    (j : ℕ) (s t : Interrupts) → t.irq_handlers ≡ s.irq_handlers → handle_irq j t ≡ handle_irq j s
unfolding handle_irq
handle_irq-same j s t e = ground (arith, ap (λ (f : ℕ → Option Handler). f (j - 32)) e)

handle_isr-irq :
    (j : ℕ) (s : Interrupts) → s.isr_handlers j ≡ some irq_handler → handle_isr j s ≡ handle_irq j s
unfolding handle_isr
handle_isr-irq j s e = rw (e, handle_isr) refl

handle_isr-same :
    (j : ℕ) (s t : Interrupts)
    → t.isr_handlers j ≡ s.isr_handlers j
    → t.irq_handlers ≡ s.irq_handlers
    → handle_isr j t ≡ handle_isr j s
unfolding handle_isr
handle_isr-same j s t e f = ground (arith, handle_irq-same j s t f)

-- `i686_IRQ_Init`, on controllers that answer with the masks they are given: they are found, the
-- interrupts 0x20 to 0x2F end in the handler of their line, other interrupts as before, and the
-- lines 0, 1, 2, 8 and 12 alone are let through.
pub irq_init_lem :
    (device : Device) (j : ℕ) (s : Interrupts)
    → IsWired device
    → let t = irq_init device s in
      (t.found ≡ true)
      × (handle_isr j t ≡ (if leb 32 j && ltb j 48 then handle_irq j s else handle_isr j s))
      × (t.pic.mask ≡ 0xEEF8)
      × (programmed t.pic ≡ 0xEEF8)
unfolding irq_init start_irqs
irq_init_lem device j s w =
    let p = (probe device s.pic).1 in
    let start : Interrupts = record s { pic = config 32 40 p; found = true } in
    let after = register_irqs_lem 16 0 j start in
    let t = register_irqs 16 0 start in
    let ready : Pic = record t.pic { bus = enable_ints t.pic.bus } in
    let masked : ready.mask ≡ 0xFFFF = ap (λ (q : Pic). q.mask) (after.2) ∙ config-mask 32 40 p in
    let lines = unmask_lines_lem ready masked in
    let u : Interrupts = record t { pic = unmask_lines ready } in
    let ends : handle_isr j u ≡ (if leb 32 j && ltb j 48 then handle_irq j s else handle_isr j s) =
      elim (Bool-cases (leb 32 j && ltb j 48)) [
        | inl e ↦ rw e (handle_isr-irq j u (after.0 ∙ rw e refl) ∙ handle_irq-same j s u (after.1))
        | inr e ↦ rw e (handle_isr-same j s u (after.0 ∙ rw e refl) (after.1))
      ] in
    rw (probe_lem device s.pic w) (after.3, ends, lines.0, lines.1)

-- A handler that is registered for a line is the one in which its interrupt ends, whatever else is
-- registered for other lines later.
pub irq_register_handler_lem :
    (irq other : ℕ) (h k : Handler) (s : Interrupts)
    → s.isr_handlers (32 + irq) ≡ some irq_handler
    → irq ≢ other
    → handle_isr (32 + irq) (irq_register_handler other k (irq_register_handler irq h s)) ≡ called h
unfolding irq_register_handler handle_irq handle_isr
irq_register_handler_lem irq other h k s e ne = ground arith

-- The handlers after `i686_IRQ_Init`.
pub irq_init-handlers :
    (device : Device) (j : ℕ) (s : Interrupts)
    → IsWired device
    → let t = irq_init device s in
      (t.isr_handlers j ≡ (if leb 32 j && ltb j 48 then some irq_handler else s.isr_handlers j))
      × (t.irq_handlers ≡ s.irq_handlers)
unfolding irq_init start_irqs
irq_init-handlers device j s w =
    let p = (probe device s.pic).1 in
    let start : Interrupts = record s { pic = config 32 40 p; found = true } in
    let after = register_irqs_lem 16 0 j start in rw (probe_lem device s.pic w) (after.0, after.1)

-- The five lines are let through once both controllers have their words.
pub irq_init-IsRemapped :
    (device : Device) (s : Interrupts) → IsWired device → IsRemapped (irq_init device s).pic.bus
unfolding irq_init start_irqs
irq_init-IsRemapped device s w =
    let p = (probe device s.pic).1 in
    let start : Interrupts = record s { pic = config 32 40 p; found = true } in
    let t = register_irqs 16 0 start in
    let sent : IsRemapped t.pic.bus =
      rw ((register_irqs_lem 16 0 0 start).2) (config-IsRemapped p) in
    let ready : IsRemapped (enable_ints t.pic.bus) = record {
      first = sent.first;
      second = sent.second;
    } in
    rw (probe_lem device s.pic w) (
      unmask_irq-IsRemapped 12 _ (
        unmask_irq-IsRemapped 8 _ (
          unmask_irq-IsRemapped 2 _ (
            unmask_irq-IsRemapped 1 _
              (unmask_irq-IsRemapped 0 (record t.pic { bus = enable_ints t.pic.bus }) ready)))))
