-- ===== src/Interrupts/Examples.antt =====
-- A table that is set up from nothing, and the claims about it.
use splongle_os.Console.{Console, puts}
use splongle_os.Interrupts.Panic.{Registers, report, dump_regs, regs_text, name_text, report-puts}
use splongle_os.Base.{codes, some, ◌+◌, ◌*◌, ◌≡◌, refl, arith, true, false, none, []}
use splongle_os.Ports.{Device, last_byte}
use splongle_os.Pic.Mask.{IsWired, programmed}
use splongle_os.Interrupts.{
  Interrupts, irq_handler, pit_handler, keyboard_handler, called, isr_initialize, irq_init,
  irq_register_handler, handle_isr, handle_irq, unhandled_irq,
}
use splongle_os.Interrupts.Gates.{base_of, isr_initialize_lem}
use splongle_os.Interrupts.Dispatch.{irq_init_lem, irq_register_handler_lem}

abbrev empty : Interrupts
empty = record {
  idt = λ i. record { base_low = 0; segment_selector = 0; reserved = 0; flags = 0; base_hi = 0 };
  isr_handlers = λ i. none;
  irq_handlers = λ i. none;
  found = false;
  pic = record { mask = 0xFFFF; bus = [] };
}

isr_initialize_lem_example :
    let e = (isr_initialize (λ i. 0x10_0000 + 16 * i) empty).idt 33 in
    (base_of e ≡ 0x10_0210) × (e.segment_selector ≡ 8) × (e.reserved ≡ 0) × (e.flags ≡ 0x8E)
isr_initialize_lem_example =
    isr_initialize_lem (λ i. 0x10_0000 + 16 * i) 33 empty (omega arith) (omega arith)

abbrev latches : Device
latches = λ bus port. last_byte port bus

latches-IsWired : IsWired latches
latches-IsWired = record { first = λ bus. refl; second = λ bus. refl }

irq_init_lem_example :
    let t = irq_init latches empty in
    (t.found ≡ true)
    × (handle_isr 40 t ≡ unhandled_irq 8)
    × (t.pic.mask ≡ 0xEEF8)
    × (programmed t.pic ≡ 0xEEF8)
unfolding handle_irq
irq_init_lem_example = irq_init_lem latches 40 empty latches-IsWired

abbrev registered : Interrupts
registered = record empty { isr_handlers = λ i. some irq_handler }

irq_register_handler_lem_example :
    handle_isr 33
      (irq_register_handler 0 pit_handler (irq_register_handler 1 keyboard_handler registered))
    ≡ called keyboard_handler
irq_register_handler_lem_example =
    irq_register_handler_lem 1 0 keyboard_handler pit_handler registered refl (omega arith)

abbrev screen : Console
screen = record { screen = λ o. 0; x = 0; y = 5; color = 0x0F; bus = [] }

-- A division by zero.
abbrev trapped : Registers
trapped = record {
  ds = 0x10;
  edi = 0;
  esi = 0;
  ebp = 0x7000;
  ebx = 1;
  edx = 2;
  ecx = 0;
  eax = 7;
  interrupt = 0;
  error_code = 0;
  eip = 0x10_2000;
  cs = 8;
  eflags = 0x202;
  esp = 0x6FF0;
  ss = 0x10;
}

report-puts_example :
    (report trapped screen
      ≡ some (
          puts
            (codes "KERNEL PANIC!\n")
            (puts (regs_text trapped) (puts (name_text trapped) screen))))
    × (dump_regs trapped screen
        ≡ some (puts (regs_text trapped) (puts (codes "Dumping regs:\n") screen)))
report-puts_example = report-puts trapped screen (omega arith)
