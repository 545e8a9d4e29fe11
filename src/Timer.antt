-- ===== src/Timer.antt =====
-- src/kernel/arch/i686/i8254.c: the timer. A `hlt` in `sleep` ends with the next interrupt, which
-- need not be one of the timer: how many ticks each `hlt` brings is a parameter.
pub mod Sleep
pub mod Rate
mod Examples
use splongle_os.Base.{
  ℕ, zero, suc, ◌+◌, ◌*◌, ◌/◌, ◌%◌, bit_and, bit_or, Bool, ◌||◌, Option, none, some, ltb, leb, ◌==◌,
  if◌then◌else◌, u32, sub32, ◌<<◌, ◌>>◌,
}
use splongle_os.Ports.{Bus, outb, enable_ints, disable_ints}

pub record Timer : Type 0 where
  pub ticks : ℕ
  pub bus : Bus

pub set_pit_channel_mode_frequency : ℕ → ℕ → ℕ → Timer → Timer
set_pit_channel_mode_frequency channel mode freq t =
    let command = bit_or (bit_or (channel << 6) (3 << 4)) (mode << 1) in
    let selected = outb 0x43 command (disable_ints t.bus) in
    let low = outb (0x40 + channel) (bit_and freq 0xFF) selected in
    let high = outb (0x40 + channel) (bit_and (freq >> 8) 0xFF) low in
    if ltb 2 channel || ltb 7 mode then t else record t { bus = enable_ints high }

pub get_ticks : Timer → ℕ
get_ticks t = t.ticks

pub pit_handler : Timer → Timer
pit_handler t = record t { ticks = u32 (t.ticks + 1) }

-- How many ticks to wait; the product is one of 32 bits.
pub wait_ticks : ℕ → ℕ
wait_ticks ms = let n = u32 (ms * 100) / 1000 in if n == 0 then 1 else n

-- One `hlt`, during which `PIT_Handler` runs `n` times.
pub halt : ℕ → Timer → Timer
halt zero t = t
halt (suc n) t = halt n (pit_handler t)

-- `while ((ticks - start) < wait_ticks) hlt`, with `i` counting the rounds; none when the fuel is
-- spent.
pub sleep_loop : (ℕ → ℕ) → ℕ → ℕ → ℕ → ℕ → Timer → Option Timer
sleep_loop wakes zero start wait i t = none
sleep_loop wakes (suc fuel) start wait i t =
    let rest = sleep_loop wakes fuel start wait (i + 1) (halt (wakes i) t) in
    if ltb (sub32 t.ticks start) wait then rest else some t

pub sleep : (ℕ → ℕ) → ℕ → ℕ → Timer → Option Timer
sleep wakes fuel ms t =
    sleep_loop wakes fuel t.ticks (wait_ticks ms) 0 (record t { bus = enable_ints t.bus })
