-- ===== src/Rtc/Periodic.antt =====
-- `enable_RTC` and `disable_RTC`: bit 6 of register B.
use splongle_os.Base.{ℕ, ◌<◌, ◌≡◌, refl, arith, bit_and, bit_or, u8, ◌==◌, if◌then◌else◌}
use splongle_os.Base.Bits.{
  bit, bit-bit_or, bit-bit_and, bit-complement, bit-pow, bit-lt_two, bit_or-lt, bit_and-le,
}
use splongle_os.Ports.{Bus, Device, disable_ints, last_byte}
use splongle_os.Rtc.{enable_rtc, disable_rtc, get_rtc_register}
use splongle_os.Rtc.Handler.{IsSteady, get_rtc_register_lem}

-- Reading a register writes to the address port only.
get_rtc_register-data :
    (reg : ℕ) (device : Device) (bus : Bus)
    → last_byte 0x71 (get_rtc_register reg device bus).1 ≡ last_byte 0x71 bus
unfolding get_rtc_register
get_rtc_register-data reg device bus = refl

-- The byte that goes to register B is the one that is read from it, with bit 6 set by `enable_RTC`
-- and clear by `disable_RTC`.
pub periodic_lem :
    (registers : ℕ → ℕ) (device : Device) (k : ℕ) (bus : Bus)
    → IsSteady registers device
    → k < 8
    → (bit k (last_byte 0x71 (enable_rtc device bus))
        ≡ (if k == 6 then 1 else bit k (registers 11)))
      × (bit k (last_byte 0x71 (disable_rtc device bus))
          ≡ (if k == 6 then 0 else bit k (registers 11)))
unfolding enable_rtc disable_rtc
periodic_lem registers device k bus s h =
    let first = get_rtc_register_lem registers device s 11 bus refl in
    let second = get_rtc_register_lem registers device s 11 (disable_ints bus) refl in
    let byte = s.bytes 11 in
    let up = bit_or-lt 8 (registers 11) 0x40 (s.bytes 11) (omega arith) in
    let down = bit_and-le 8 (registers 11) 0xBF byte in
    let joined : u8 (bit_or (registers 11) 0x40) ≡ bit_or (registers 11) 0x40 = omega (arith, up) in
    let met : u8 (bit_and (registers 11) 0xBF) ≡ bit_and (registers 11) 0xBF =
      omega (arith, down, byte) in
    rw (get_rtc_register-data 12 device _, first, second, joined, met)
      (ground (
        arith,
        bit-bit_or k (registers 11) 0x40,
        bit-bit_and k (registers 11) 0xBF,
        bit-complement 8 k 0x40 h (omega arith),
        bit-pow k 6,
        bit-lt_two k (registers 11),
      ))
