-- ===== src/Pci/Address.antt =====
-- Which register of which function is read.
use splongle_os.Base.{ℕ, ◌+◌, ◌*◌, ◌/◌, ◌%◌, ◌^◌, ◌≡◌, arith, bit_and, bit_or}
use splongle_os.Base.Bits.{bit_and-low, bit_and-high, bit_or-shifted}
use splongle_os.Pci.{identifier}

-- The fields of the word that selects a register stand side by side, each cut to its width.
pub identifier_lem :
    (bus device function offset : ℕ)
    → identifier bus device function offset
      ≡ 2 ^ 31
        + bus % 256 * 2 ^ 16
        + device % 32 * 2 ^ 11
        + function % 8 * 2 ^ 8
        + offset % 256 / 4 * 4
unfolding identifier
identifier_lem bus device function offset =
    let b = bit_and-low 8 bus in
    let d = bit_and-low 5 device in
    let f = bit_and-low 3 function in
    let split : offset / 4 * 4 + offset % 4 ≡ offset = omega arith in
    let high = bit_and-high 2 (offset / 4) (offset % 4) 63 (omega arith) in
    let high' : bit_and offset 0xFC ≡ bit_and (offset / 4) 63 * 4 = rw split at high in
    let o : bit_and offset 0xFC ≡ offset % 256 / 4 * 4 =
      omega (arith, high', bit_and-low 6 (offset / 4)) in
    let one = bit_or-shifted 31 1 (bus % 256 * 2 ^ 16) (omega arith) in
    let two = bit_or-shifted 16 (2 ^ 15 + bus % 256) (device % 32 * 2 ^ 11) (omega arith) in
    let three =
      bit_or-shifted 11 (2 ^ 20 + bus % 256 * 2 ^ 5 + device % 32) (function % 8 * 2 ^ 8)
        (omega arith) in
    let four =
      bit_or-shifted 8 (2 ^ 23 + bus % 256 * 2 ^ 8 + device % 32 * 2 ^ 3 + function % 8)
        (offset % 256 / 4 * 4) (omega arith) in
    let one' : bit_or (1 * 2 ^ 31) (bus % 256 * 2 ^ 16) ≡ (2 ^ 15 + bus % 256) * 2 ^ 16 =
      omega (arith, one) in
    let two' : bit_or ((2 ^ 15 + bus % 256) * 2 ^ 16) (device % 32 * 2 ^ 11)
        ≡ (2 ^ 20 + bus % 256 * 2 ^ 5 + device % 32) * 2 ^ 11 =
      omega (arith, two) in
    let three' : bit_or ((2 ^ 20 + bus % 256 * 2 ^ 5 + device % 32) * 2 ^ 11) (function % 8 * 2 ^ 8)
        ≡ (2 ^ 23 + bus % 256 * 2 ^ 8 + device % 32 * 2 ^ 3 + function % 8) * 2 ^ 8 =
      omega (arith, three) in
    rw (b, d, f, o, one', two', three') (omega (arith, four))
