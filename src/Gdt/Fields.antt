-- ===== src/Gdt/Fields.antt =====
-- What the processor reads out of an entry of the table.
use splongle_os.Base.{ℕ, ◌+◌, ◌-◌, ◌*◌, ◌/◌, ◌%◌, ◌^◌, ◌<◌, ◌≡◌, arith, ◌∙◌, bit_and}
use splongle_os.Base.Bits.{bit_and-low, bit_and-high, bit_or-shifted, bit_or_comm}
use splongle_os.Gdt.{GdtEntry, gdt_entry}

-- The layout of the processor's manual.
abbrev pub base_of : GdtEntry → ℕ
base_of e = e.base_low + e.base_middle * 2 ^ 16 + e.base_high * 2 ^ 24

abbrev pub limit_of : GdtEntry → ℕ
limit_of e = e.segment_limit_low + e.flags_limit_hi % 16 * 2 ^ 16

abbrev pub flags_of : GdtEntry → ℕ
flags_of e = e.flags_limit_hi / 16

-- A base of 32 bits, a limit of 20, access rights of 8 and four flags are read back as they were
-- given.
pub gdt_entry_lem :
    (base limit access flags : ℕ)
    → base < 2 ^ 32
    → limit < 2 ^ 20
    → access < 2 ^ 8
    → flags < 2 ^ 8
    → let e = gdt_entry base limit access flags in
      (base_of e ≡ base) × (limit_of e ≡ limit) × (e.access ≡ access) × (flags_of e ≡ flags / 16)
unfolding gdt_entry
gdt_entry_lem base limit access flags h k l m =
    let high = bit_and-high 4 (flags / 16) (flags % 16) (2 ^ 4 - 1) (omega arith) in
    let split : flags / 16 * 2 ^ 4 + flags % 16 ≡ flags = omega arith in
    let upper : bit_and flags 0xF0 ≡ bit_and (flags / 16) (2 ^ 4 - 1) * 2 ^ 4 = rw split at high in
    let nibble = bit_and-low 4 (flags / 16) in
    let upper' : bit_and flags 0xF0 ≡ flags / 16 * 2 ^ 4 = omega (arith, upper, nibble) in
    let lower = bit_and-low 4 (limit / 2 ^ 16) in
    let lower' : bit_and (limit / 2 ^ 16) 0x0F ≡ limit / 2 ^ 16 = omega (arith, lower) in
    let join = bit_or-shifted 4 (flags / 16) (limit / 2 ^ 16) (omega arith) in
    let comm = bit_or_comm 8 (limit / 2 ^ 16) (flags / 16 * 2 ^ 4) (omega arith) (omega arith) in
    let hi = comm ∙ join in
    rw
      (
        upper',
        lower',
        hi,
        bit_and-low 16 limit,
        bit_and-low 16 base,
        bit_and-low 8 (base / 2 ^ 16),
        bit_and-low 8 (base / 2 ^ 24),
      )
      (omega arith, omega arith, omega arith, omega arith)
