-- ===== src/Speaker/Examples.antt =====
-- The note that the shell plays.
use splongle_os.Base.{◌+◌, ◌/◌, ◌%◌, ◌≡◌, refl, arith, some, [], ◌∷◌}
use splongle_os.Ports.{Device, wrote8, last_byte}
use splongle_os.Timer.{Timer}
use splongle_os.Speaker.{play_note}
use splongle_os.Speaker.Note.{play_note_lem}

-- The status of the upper half is 2, whatever was written there.
abbrev latches : Device
latches = λ bus port. last_byte port bus % 16 + 0x20

abbrev quiet : Timer
quiet = record { ticks = 100; bus = wrote8 0x61 0x34 ∷ [] }

play_note_lem_example :
    (u : Timer) × (play_note latches (λ i. 1) 3 2711 20 quiet ≡ some u)
    × (u.ticks ≡ 102)
    × (last_byte 0x61 u.bus % 4 ≡ 0)
    × (last_byte 0x61 u.bus / 4 % 4 ≡ 1)
play_note_lem_example =
    play_note_lem latches (λ i. 1) 3 2 2711 20 quiet (λ bus. omega arith) (λ i. omega arith)
      (omega arith) (omega arith) refl (omega arith)
