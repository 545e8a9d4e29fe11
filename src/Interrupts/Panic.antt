-- ===== src/Interrupts/Panic.antt =====
-- src/kernel/arch/i686/isr.c: what an exception without a handler prints, and `dump_regs`.
use splongle_os.Base.{
  codes, ℕ, ◌<◌, ◌≡◌, refl, sym, arith, ◌∙◌, ap, Option, some, ◌>>=◌, List, [], ◌∷◌, ◌++◌, map,
  get_or,
}
use splongle_os.Console.{Console, puts}
use splongle_os.Console.Text.{puts-append}
use splongle_os.Printk.{default, convert, printk}
use splongle_os.Printk.Format.{Piece, char, conversion}
use splongle_os.Printk.Render.{render, shown, printk-render, printk-IsText}
use splongle_os.Printk.Decimal.{decimal, number_text-extend}

-- `Registers`, without `kernel_esp`, which nothing reads.
pub record Registers : Type 0 where
  pub ds : ℕ
  pub edi : ℕ
  pub esi : ℕ
  pub ebp : ℕ
  pub ebx : ℕ
  pub edx : ℕ
  pub ecx : ℕ
  pub eax : ℕ
  pub interrupt : ℕ
  pub error_code : ℕ
  pub eip : ℕ
  pub cs : ℕ
  pub eflags : ℕ
  pub esp : ℕ
  pub ss : ℕ

abbrev pub g_exceptions : List (List ℕ)
g_exceptions =
    codes "Divide by zero error"
    ∷ codes "Debug"
    ∷ codes "Non-maskable Interrupt"
    ∷ codes "Breakpoint"
    ∷ codes "Overflow"
    ∷ codes "Bound Range Exceeded"
    ∷ codes "Invalid Opcode"
    ∷ codes "Device Not Available"
    ∷ codes "Double Fault"
    ∷ codes "Coprocessor Segment Overrun"
    ∷ codes "Invalid TSS"
    ∷ codes "Segment Not Present"
    ∷ codes "Stack-Segment Fault"
    ∷ codes "General Protection Fault"
    ∷ codes "Page Fault"
    ∷ codes ""
    ∷ codes "x87 Floating-Point Exception"
    ∷ codes "Alignment Check"
    ∷ codes "Machine Check"
    ∷ codes "SIMD Floating-Point Exception"
    ∷ codes "Virtualization Exception"
    ∷ codes "Control Protection Exception "
    ∷ codes ""
    ∷ codes ""
    ∷ codes ""
    ∷ codes ""
    ∷ codes ""
    ∷ codes ""
    ∷ codes "Hypervisor Injection Exception"
    ∷ codes "VMM Communication Exception"
    ∷ codes "Security Exception"
    ∷ codes ""
    ∷ []

-- The pointer to the name of an exception is its place in the table.
abbrev pub exception_name : ℕ → List ℕ
exception_name a = get_or g_exceptions a []

abbrev pub format_general : List ℕ
format_general = codes "  eax=%x  ebx=%x  ecx=%x  edx=%x  esi=%x  edi=%x\n"

abbrev pub format_control : List ℕ
format_control = codes "  esp=%x  ebp=%x  eip=%x  eflags=%x  cs=%x  ds=%x  ss=%x\n"

-- The three messages that both functions print.
pub print_regs : Registers → Console → Option Console
print_regs r s = do
  t ← printk exception_name format_general (r.eax ∷ r.ebx ∷ r.ecx ∷ r.edx ∷ r.esi ∷ r.edi ∷ []) s
  u ←
      printk exception_name format_control
        (r.esp ∷ r.ebp ∷ r.eip ∷ r.eflags ∷ r.cs ∷ r.ds ∷ r.ss ∷ []) t
  printk exception_name (codes "  interrupt=%x  errorcode=%x\n") (r.interrupt ∷ r.error_code ∷ []) u

-- The messages of `i686_ISR_Handler` before it stops the machine.
pub report : Registers → Console → Option Console
report r s = do
  t ← printk exception_name (codes "Unhandled exception %d %s\n") (r.interrupt ∷ r.interrupt ∷ []) s
  u ← print_regs r t
  printk exception_name (codes "KERNEL PANIC!\n") [] u

pub dump_regs : Registers → Console → Option Console
dump_regs r s = do t ← printk exception_name (codes "Dumping regs:\n") [] s; print_regs r t

-- A label before each number, in hexadecimal.
abbrev labelled : List (List ℕ × ℕ) → List ℕ
labelled [] = codes "\n"
labelled ((label, n) ∷ rest) = label ++ (convert 64 n 16 [] ++ labelled rest)

abbrev labelled_pieces : List (List ℕ × ℕ) → List Piece
labelled_pieces [] = char b'\n' ∷ []
labelled_pieces ((label, n) ∷ rest) =
    map char label ++ (conversion default b'x' ∷ labelled_pieces rest)

abbrev general : Registers → List (List ℕ × ℕ)
general r =
    (codes "  eax=", r.eax)
    ∷ (codes "  ebx=", r.ebx)
    ∷ (codes "  ecx=", r.ecx)
    ∷ (codes "  edx=", r.edx)
    ∷ (codes "  esi=", r.esi)
    ∷ (codes "  edi=", r.edi)
    ∷ []

abbrev control : Registers → List (List ℕ × ℕ)
control r =
    (codes "  esp=", r.esp)
    ∷ (codes "  ebp=", r.ebp)
    ∷ (codes "  eip=", r.eip)
    ∷ (codes "  eflags=", r.eflags)
    ∷ (codes "  cs=", r.cs)
    ∷ (codes "  ds=", r.ds)
    ∷ (codes "  ss=", r.ss)
    ∷ []

abbrev cause : Registers → List (List ℕ × ℕ)
cause r = (codes "  interrupt=", r.interrupt) ∷ (codes "  errorcode=", r.error_code) ∷ []

abbrev pub regs_text : Registers → List ℕ
regs_text r = labelled (general r) ++ (labelled (control r) ++ labelled (cause r))

print_regs-puts : (r : Registers) (s : Console) → print_regs r s ≡ some (puts (regs_text r) s)
unfolding print_regs
print_regs-puts r s =
    let t = puts (labelled (general r)) s in
    let u = puts (labelled (control r)) t in
    let v = puts (labelled (cause r)) u in
    let one : printk exception_name format_general
          (r.eax ∷ r.ebx ∷ r.ecx ∷ r.edx ∷ r.esi ∷ r.edi ∷ []) s
        ≡ some t =
      printk-render exception_name (labelled_pieces (general r))
        (r.eax ∷ r.ebx ∷ r.ecx ∷ r.edx ∷ r.esi ∷ r.edi ∷ []) s (omega arith) in
    let two : printk exception_name format_control
          (r.esp ∷ r.ebp ∷ r.eip ∷ r.eflags ∷ r.cs ∷ r.ds ∷ r.ss ∷ []) t
        ≡ some u =
      printk-render exception_name (labelled_pieces (control r))
        (r.esp ∷ r.ebp ∷ r.eip ∷ r.eflags ∷ r.cs ∷ r.ds ∷ r.ss ∷ []) t (omega arith) in
    let three : printk exception_name (codes "  interrupt=%x  errorcode=%x\n")
          (r.interrupt ∷ r.error_code ∷ []) u
        ≡ some v =
      printk-render exception_name (labelled_pieces (cause r)) (r.interrupt ∷ r.error_code ∷ []) u
        (omega arith) in
    let joined : puts (regs_text r) s ≡ v =
      puts-append (labelled (general r)) (labelled (control r) ++ labelled (cause r)) s
      ∙ puts-append (labelled (control r)) (labelled (cause r)) t in
    rw (one, two, three) (ap some (sym joined))

abbrev pub name_text : Registers → List ℕ
name_text r =
    codes "Unhandled exception "
    ++ (decimal r.interrupt ++ (b' ' ∷ (exception_name r.interrupt ++ codes "\n")))

abbrev name_pieces : List Piece
name_pieces =
    map char (codes "Unhandled exception ")
    ++ (conversion default b'd' ∷ char b' ' ∷ conversion default b's' ∷ char b'\n' ∷ [])

-- An exception without a handler: the messages return, and they are its number and name, all of
-- the registers, each with its own label, in hexadecimal, and the panic. `dump_regs` prints the
-- same registers behind a heading.
pub report-puts :
    (r : Registers) (s : Console)
    → r.interrupt < 32
    → (report r s
        ≡ some (puts (codes "KERNEL PANIC!\n") (puts (regs_text r) (puts (name_text r) s))))
      × (dump_regs r s ≡ some (puts (regs_text r) (puts (codes "Dumping regs:\n") s)))
unfolding report dump_regs
report-puts r s h =
    let number = number_text-extend r.interrupt (omega (arith, h)) in
    let t = puts (name_text r) s in
    let heading = puts (codes "Dumping regs:\n") s in
    let args = r.interrupt ∷ r.interrupt ∷ [] in
    let text : render exception_name name_pieces args ≡ some (name_text r) = rw number refl in
    let name : printk exception_name (codes "Unhandled exception %d %s\n") args s ≡ some t =
      printk-render exception_name name_pieces args s (omega arith) ∙ ap (shown s) text in
    let panic =
      printk-IsText exception_name (codes "KERNEL PANIC!\n") [] (puts (regs_text r) t)
        (omega arith) in
    let dumping : printk exception_name (codes "Dumping regs:\n") [] s ≡ some heading =
      printk-IsText exception_name (codes "Dumping regs:\n") [] s (omega arith) in
    (rw (name, print_regs-puts r t, panic) refl, rw dumping (print_regs-puts r heading))
