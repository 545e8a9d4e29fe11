-- ===== src/Interrupts/Gates.antt =====
-- The gates that `i686_ISR_Initialize` leaves in the table.
use splongle_os.Base.{
  ℕ, zero, suc, ◌+◌, ◌*◌, ◌/◌, ◌%◌, ◌^◌, ◌<◌, ◌≡◌, refl, arith, ◌∙◌, bit_and, bit_or, true,
  Bool-cases, inl, inr, ltb, leb, ◌==◌, ◌&&◌, if◌then◌else◌, u8, u16, update,
}
use splongle_os.Base.Bits.{
  bit_and-low, bit, bit-bit_or, bit-bit_and, bit-complement, bit-pow, bit-lt_two, bit_or-lt,
  bit_and-le,
}
use splongle_os.Interrupts.{
  IdtEntry, Interrupts, idt_set_gate, idt_enable_gate, idt_disable_gate, initialize_gates,
  enable_gates, isr_initialize,
}

-- The address to which the processor goes.
abbrev pub base_of : IdtEntry → ℕ
base_of e = e.base_low + e.base_hi * 2 ^ 16

-- The gate of a stub, and with the flag that enables it.
abbrev pub gate : ℕ → ℕ → IdtEntry
gate flags base = record {
  base_low = base % 2 ^ 16;
  segment_selector = 8;
  reserved = 0;
  flags = flags;
  base_hi = base / 2 ^ 16 % 2 ^ 16;
}

set_gate_lem :
    (i base : ℕ) (idt : ℕ → IdtEntry)
    → idt_set_gate i base 8 0x0E idt ≡ update idt i (gate 0x0E base)
unfolding idt_set_gate
set_gate_lem i base idt =
    let low = bit_and-low 16 base in
    let high = bit_and-low 16 (base / 2 ^ 16) in
    let low' : u16 (bit_and base 0xFFFF) ≡ base % 2 ^ 16 = omega (arith, low) in
    let high' : u16 (bit_and (base / 2 ^ 16) 0xFFFF) ≡ base / 2 ^ 16 % 2 ^ 16 =
      omega (arith, high) in
    rw (low', high') refl

initialize_gates_lem :
    (rounds i j : ℕ) (isr : ℕ → ℕ) (idt : ℕ → IdtEntry)
    → initialize_gates isr rounds i idt j
      ≡ (if leb i j && ltb j (i + rounds) then gate 0x0E (isr j) else idt j)
unfolding initialize_gates
initialize_gates_lem zero i j isr idt = ground arith
initialize_gates_lem (suc rounds) i j isr idt = rw (set_gate_lem i (isr i) idt) (
    initialize_gates_lem rounds (i + 1) j isr (update idt i (gate 0x0E (isr i)))
    ∙ (elim (Bool-cases (i == j)) [
      | inl e ↦ let same : i ≡ j = ground arith in rw same (ground arith)
      | inr e ↦ ground arith
    ]))

enable_gates_lem :
    (rounds i j : ℕ) (idt : ℕ → IdtEntry)
    → enable_gates rounds i idt j
      ≡ (if leb i j && ltb j (i + rounds) then idt_enable_gate j idt j else idt j)
unfolding enable_gates idt_enable_gate
enable_gates_lem zero i j idt = ground arith
enable_gates_lem (suc rounds) i j idt =
    enable_gates_lem rounds (i + 1) j (idt_enable_gate i idt) ∙ (elim (Bool-cases (i == j)) [
      | inl e ↦ let same : i ≡ j = ground arith in rw same (ground arith)
      | inr e ↦ ground arith
    ])

pub isr_initialize-gate :
    (isr : ℕ → ℕ) (i : ℕ) (s : Interrupts)
    → i < 256
    → (isr_initialize isr s).idt i ≡ gate 0x8E (isr i)
unfolding isr_initialize
isr_initialize-gate isr i s h =
    let inside : (leb 0 i && ltb i (0 + 256)) ≡ true = ground arith in
    rw (enable_gates_lem 256 0 i (initialize_gates isr 256 0 s.idt), inside)
      (unfold idt_enable_gate in rw (initialize_gates_lem 256 0 i isr s.idt, inside) (ground arith))

-- After `i686_ISR_Initialize` each of the 256 gates leads to its own stub, in the kernel's code
-- segment, and is present.
pub isr_initialize_lem :
    (isr : ℕ → ℕ) (i : ℕ) (s : Interrupts)
    → i < 256
    → isr i < 2 ^ 32
    → let e = (isr_initialize isr s).idt i in
      (base_of e ≡ isr i) × (e.segment_selector ≡ 8) × (e.reserved ≡ 0) × (e.flags ≡ 0x8E)
isr_initialize_lem isr i s h k = rw (isr_initialize-gate isr i s h) (omega arith, refl, refl, refl)

-- Enabling a gate, and disabling it, changes the present bit of its flags alone.
pub present_bit_lem :
    (i k : ℕ) (idt : ℕ → IdtEntry)
    → (idt i).flags < 2 ^ 8
    → k < 8
    → (bit k (idt_enable_gate i idt i).flags ≡ (if k == 7 then 1 else bit k (idt i).flags))
      × (bit k (idt_disable_gate i idt i).flags ≡ (if k == 7 then 0 else bit k (idt i).flags))
unfolding idt_enable_gate idt_disable_gate
present_bit_lem i k idt h l =
    let flags = (idt i).flags in
    let up = bit_or-lt 8 flags 0x80 h (omega arith) in
    let down = bit_and-le 8 flags 0xFFFF_FF7F in
    let joined : u8 (bit_or flags 0x80) ≡ bit_or flags 0x80 = omega (arith, up) in
    let met : u8 (bit_and flags 0xFFFF_FF7F) ≡ bit_and flags 0xFFFF_FF7F = omega (arith, down, h) in
    ground (
      arith,
      joined,
      met,
      bit-bit_or k flags 0x80,
      bit-bit_and k flags 0xFFFF_FF7F,
      bit-complement 32 k 0x80 (omega arith) (omega arith),
      bit-pow k 7,
      bit-lt_two k flags,
    )
