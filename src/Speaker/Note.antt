-- ===== src/Speaker/Note.antt =====
-- What a note leaves behind: the speaker is off, and the rest of its port is as before.
use splongle_os.Base.{
  ℕ, inr, ◌+◌, ◌*◌, ◌/◌, ◌%◌, ◌^◌, ◌≤◌, ◌<◌, ◌≡◌, refl, arith, ◌∙◌, ap, max, bit_and, bit_or, some,
  u8, u32,
}
use splongle_os.Base.Bits.{bit_or_step, bit_or-zero, bit_and-high, bit_and-low}
use splongle_os.Ports.{Bus, Device, last_byte, enable_ints}
use splongle_os.Timer.{Timer, set_pit_channel_mode_frequency, sleep}
use splongle_os.Timer.Sleep.{elapsed, sleep_lem, set_pit_lem}
use splongle_os.Speaker.{speaker_enable, speaker_disable, play_note}

-- The port answers with the four lowest bits that were written to it last; the upper four are a
-- status, of which nothing is said.
abbrev pub IsLatched : Device → Type 0
IsLatched device = (bus : Bus) → device bus 0x61 % 16 ≡ last_byte 0x61 bus % 16

enable_lem :
    (device : Device) (t : Timer)
    → IsLatched device
    → (last_byte 0x61 (speaker_enable device t).bus % 16 ≡ last_byte 0x61 t.bus % 16 / 4 * 4 + 3)
      × ((speaker_enable device t).ticks ≡ t.ticks)
unfolding speaker_enable
enable_lem device t latched =
    let w = u8 (device t.bus 0x61) in
    let set' : bit_or w 3 ≡ w / 4 * 4 + 3 =
      omega (arith, bit_or_step w 3, bit_or_step (w / 2) 1, bit_or-zero (w / 2 / 2)) in
    (rw set' (omega (arith, latched t.bus)), refl)

disable_lem :
    (device : Device) (t : Timer)
    → IsLatched device
    → (last_byte 0x61 (speaker_disable device t).bus % 16 ≡ last_byte 0x61 t.bus % 16 / 4 * 4)
      × ((speaker_disable device t).ticks ≡ t.ticks)
unfolding speaker_disable
disable_lem device t latched =
    let w = u8 (device t.bus 0x61) in
    let split : w / 4 * 4 + w % 4 ≡ w = omega arith in
    let high = bit_and-high 2 (w / 4) (w % 4) 63 (omega arith) in
    let high' : bit_and w 0xFC ≡ bit_and (w / 4) 63 * 4 = rw split at high in
    let clear : bit_and w 0xFC ≡ w / 4 * 4 = omega (arith, high', bit_and-low 6 (w / 4)) in
    (rw clear (omega (arith, latched t.bus)), refl)

-- `play_note` of less than 2^32 / 100 milliseconds ends, with the speaker off, bits 2 and 3 of its
-- port as they were, and one tick gone by for each 10 milliseconds, or one at least, where the
-- port answers with the four lowest bits that were written last and anything above them, and no
-- `hlt` brings more than one tick, some number of them below the fuel bringing these ticks
-- together.
pub play_note_lem :
    (device : Device) (wakes : ℕ → ℕ) (fuel n note ms : ℕ) (t : Timer)
    → IsLatched device
    → ((i : ℕ) → wakes i ≤ 1)
    → ms * 100 < 2 ^ 32
    → t.ticks < 2 ^ 32
    → elapsed wakes 0 n ≡ max 1 (ms / 10)
    → n < fuel
    → (u : Timer) × (play_note device wakes fuel note ms t ≡ some u)
      × (u.ticks ≡ u32 (t.ticks + max 1 (ms / 10)))
      × (last_byte 0x61 u.bus % 4 ≡ 0)
      × (last_byte 0x61 u.bus / 4 % 4 ≡ last_byte 0x61 t.bus / 4 % 4)
unfolding play_note
play_note_lem device wakes fuel n note ms t latched one l k e f =
    let on = speaker_enable device t in
    let enabled = enable_lem device t latched in
    let p = set_pit_channel_mode_frequency 2 3 note on in
    let pit = set_pit_lem 2 3 note 0x61 on (omega arith) (omega arith) (inr (omega arith)) in
    let same : p.ticks ≡ t.ticks = pit.0 ∙ enabled.1 in
    let slept : Timer = record {
      ticks = u32 (t.ticks + max 1 (ms / 10));
      bus = enable_ints p.bus;
    } in
    let sleeps : sleep wakes fuel ms p ≡ some slept =
      sleep_lem wakes fuel n ms p one l (omega (arith, same, k)) e f
      ∙ ap (λ (x : ℕ). some (record { ticks = u32 (x + max 1 (ms / 10)); bus = enable_ints p.bus }))
          same in
    let port : last_byte 0x61 slept.bus ≡ last_byte 0x61 on.bus = pit.1 in
    let off = disable_lem device slept latched in
    (
      speaker_disable device slept,
      rw sleeps refl,
      off.1,
      omega (arith, off.0),
      omega (arith, off.0, port, enabled.0),
    )
