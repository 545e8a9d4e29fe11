-- ===== src/Timer/Examples.antt =====
-- A sleep over the wrap of the counter, with a wake between the ticks.
use splongle_os.Base.{ℕ, ◌≤◌, ◌≡◌, refl, arith, some, [], ◌∷◌, ◌==◌, if◌then◌else◌}
use splongle_os.Ports.{wrote8, enable_ints, disable_ints}
use splongle_os.Timer.{sleep, set_pit_channel_mode_frequency}
use splongle_os.Timer.Rate.{set_pit_channel_mode_frequency_lem}
use splongle_os.Timer.Sleep.{sleep_lem}

abbrev wakes : ℕ → ℕ
wakes i = if i == 1 then 0 else 1

wakes-le : (i : ℕ) → wakes i ≤ 1
wakes-le i = ground arith

sleep_lem_example :
    sleep wakes 5 30 (record { ticks = 0xFFFF_FFFE; bus = [] })
    ≡ some (record { ticks = 1; bus = enable_ints [] })
sleep_lem_example =
    sleep_lem wakes 5 4 30 (record { ticks = 0xFFFF_FFFE; bus = [] }) wakes-le (omega arith)
      (omega arith) refl (omega arith)

set_pit_channel_mode_frequency_lem_example :
    set_pit_channel_mode_frequency 0 2 11932 (record { ticks = 0; bus = [] }) ≡ record {
      ticks = 0;
      bus = enable_ints (wrote8 0x40 46 ∷ wrote8 0x40 156 ∷ wrote8 0x43 52 ∷ disable_ints []);
    }
set_pit_channel_mode_frequency_lem_example =
    set_pit_channel_mode_frequency_lem 0 2 11932 (record { ticks = 0; bus = [] }) (omega arith)
      (omega arith) (omega arith)
