-- ===== src/Timer/Rate.antt =====
-- What `set_PIT_channel_mode_frequency` tells the timer.
use splongle_os.Base.{
  ℕ, ◌+◌, ◌*◌, ◌/◌, ◌%◌, ◌^◌, ◌≤◌, ◌<◌, ◌≡◌, refl, arith, bit_and, bit_or, false, ltb, ◌||◌, ◌∷◌,
  ◌<<◌, u8,
}
use splongle_os.Base.Bits.{bit_and-low, bit_or-shifted}
use splongle_os.Ports.{wrote8, enable_ints, disable_ints}
use splongle_os.Timer.{Timer, set_pit_channel_mode_frequency}

command_lem :
    (channel mode : ℕ)
    → channel ≤ 2
    → mode ≤ 7
    → bit_or (bit_or (channel << 6) (3 << 4)) (mode << 1) ≡ 64 * channel + 48 + 2 * mode
command_lem channel mode h k =
    let low = bit_or-shifted 6 channel 48 (omega arith) in
    let all = bit_or-shifted 4 (4 * channel + 3) (2 * mode) (omega (arith, k)) in
    let joined : bit_or (channel << 6) (3 << 4) ≡ (4 * channel + 3) * 2 ^ 4 = omega (arith, low) in
    let shifted : mode << 1 ≡ 2 * mode = omega arith in rw (joined, shifted) (omega (arith, all))

-- `set_PIT_channel_mode_frequency` of a channel up to 2, a mode up to 7 and a divider of 16 bits:
-- with interrupts off, the timer gets the command (the channel, both bytes, the mode) and then
-- the two bytes of the divider on the port of the channel, the low one first.
pub set_pit_channel_mode_frequency_lem :
    (channel mode freq : ℕ) (t : Timer)
    → channel ≤ 2
    → mode ≤ 7
    → freq < 2 ^ 16
    → set_pit_channel_mode_frequency channel mode freq t ≡ record t {
      bus = enable_ints (
          wrote8 (0x40 + channel) (freq / 256)
          ∷ wrote8 (0x40 + channel) (freq % 256)
          ∷ wrote8 0x43 (64 * channel + 48 + 2 * mode)
          ∷ disable_ints t.bus);
    }
unfolding set_pit_channel_mode_frequency
set_pit_channel_mode_frequency_lem channel mode freq t h k l =
    let valid : (ltb 2 channel || ltb 7 mode) ≡ false = ground (arith, h, k) in
    let low : u8 (bit_and freq 0xFF) ≡ freq % 256 = omega (arith, bit_and-low 8 freq) in
    let high : u8 (bit_and (freq / 2 ^ 8) 0xFF) ≡ freq / 256 =
      omega (arith, l, bit_and-low 8 (freq / 2 ^ 8)) in
    let command : u8 (bit_or (bit_or (channel << 6) (3 << 4)) (mode << 1))
        ≡ 64 * channel + 48 + 2 * mode =
      rw (command_lem channel mode h k) (omega (arith, h, k)) in
    rw (valid, low, high, command) refl
