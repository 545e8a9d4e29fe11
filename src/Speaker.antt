-- ===== src/Speaker.antt =====
-- src/kernel/dev/pc_speaker.c: the speaker, which the second channel of the timer drives.
pub mod Note
mod Examples
use splongle_os.Base.{ℕ, bit_and, bit_or, Option, none, some, ◌>>=◌}
use splongle_os.Ports.{Bus, Device, outb, inb}
use splongle_os.Timer.{Timer, set_pit_channel_mode_frequency, sleep}

abbrev pub speaker_port : ℕ
speaker_port = 0x61

pub speaker_enable : Device → Timer → Timer
speaker_enable device t =
    let (temp, bus) = inb device speaker_port t.bus in
    record t { bus = outb speaker_port (bit_or temp 0x3) bus }

pub speaker_disable : Device → Timer → Timer
speaker_disable device t =
    let (temp, bus) = inb device speaker_port t.bus in
    record t { bus = outb speaker_port (bit_and temp 0xFC) bus }

-- None when the fuel of `sleep` is spent.
pub play_note : Device → (ℕ → ℕ) → ℕ → ℕ → ℕ → Timer → Option Timer
play_note device wakes fuel note ms_duration t = do
  slept ←
      sleep wakes fuel ms_duration
        (set_pit_channel_mode_frequency 2 3 note (speaker_enable device t))
  some (speaker_disable device slept)

pub rest : Device → (ℕ → ℕ) → ℕ → ℕ → Timer → Option Timer
rest device wakes fuel ms_duration t = do
  slept ←
      sleep wakes fuel ms_duration (set_pit_channel_mode_frequency 2 3 40 (speaker_enable device t))
  some (speaker_disable device slept)
