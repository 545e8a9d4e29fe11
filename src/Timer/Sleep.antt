-- ===== src/Timer/Sleep.antt =====
-- How long `sleep` sleeps.
use splongle_os.Base.{
  ℕ, zero, suc, ◌+◌, ◌*◌, ◌/◌, ◌%◌, ◌^◌, ◌≤◌, ◌<◌, ◌≡◌, refl, arith, ◌∙◌, ap, max, false,
  Bool-cases, all_below, all_below_sound, inl, inr, some, ltb, ◌||◌, ◌⊎◌, ◌≢◌, ◌∷◌, bit_and, bit_or,
  u8, ◌==◌, if◌then◌else◌, u32, sub32,
}
use splongle_os.Base.Bits.{bit_and-low}
use splongle_os.Ports.{enable_ints, last_byte, wrote8, set_interrupts}
use splongle_os.Timer.{
  Timer, pit_handler, halt, wait_ticks, sleep_loop, sleep, set_pit_channel_mode_frequency,
}

-- The ticks that `n` rounds bring, from round `i` on.
abbrev pub elapsed : (ℕ → ℕ) → ℕ → ℕ → ℕ
elapsed wakes i zero = 0
elapsed wakes i (suc n) = wakes i + elapsed wakes (i + 1) n

halt-ticks :
    (n : ℕ) (t : Timer) → t.ticks < 2 ^ 32 → halt n t ≡ record t { ticks = u32 (t.ticks + n) }
unfolding halt pit_handler
halt-ticks zero t h = let same : u32 (t.ticks + 0) ≡ t.ticks = omega arith in rw same refl
halt-ticks (suc n) t h =
    halt-ticks n (record t { ticks = u32 (t.ticks + 1) }) (omega arith)
    ∙ ap (λ (k : ℕ). record t { ticks = k }) (omega arith)

module _ (wakes : ℕ → ℕ) (one : (i : ℕ) → wakes i ≤ 1) (start wait : ℕ) (l : start < 2 ^ 32)
    (w : wait < 2 ^ 32) where
  sleep_loop_lem :
      (fuel n i d : ℕ) (t : Timer)
      → n < fuel
      → d + elapsed wakes i n ≡ wait
      → t.ticks ≡ u32 (start + d)
      → sleep_loop wakes fuel start wait i t ≡ some (record t { ticks = u32 (start + wait) })
  unfolding sleep_loop
  sleep_loop_lem zero n i d t f e at = absurd (omega arith)
  sleep_loop_lem (suc fuel) zero i d t f e at =
      let over : ltb (sub32 t.ticks start) wait ≡ false = ground (arith, at) in
      let same : u32 (start + wait) ≡ t.ticks = omega (arith, at, e) in rw (over, same) refl
  sleep_loop_lem (suc fuel) (suc n) i d t f e at =
      elim (Bool-cases (ltb (sub32 t.ticks start) wait)) [
        | inl more ↦
            let low : t.ticks < 2 ^ 32 = omega (arith, at) in
            let step = halt-ticks (wakes i) t low in
            rw more (
              sleep_loop_lem fuel n (i + 1) (d + wakes i) (halt (wakes i) t) (omega (arith, f))
                (omega (arith, e)) (ap (λ (u : Timer). u.ticks) step ∙ omega (arith, at))
              ∙ ap (λ (u : Timer). some (record u { ticks = u32 (start + wait) })) step)
        | inr done ↦
            let whole : d ≡ wait = ground (arith, at, e, done) in
            let same : u32 (start + wait) ≡ t.ticks = omega (arith, at, whole) in
            rw (done, same) refl
      ]

-- `sleep` of less than 2^32 / 100 milliseconds ends, and does so when one tick has gone by for
-- each 10 milliseconds, or one at least, also where the counter wraps: it is enough that no `hlt`
-- brings more than one tick, that some number of them brings these ticks together, and fuel above
-- that number.
pub sleep_lem :
    (wakes : ℕ → ℕ) (fuel n ms : ℕ) (t : Timer)
    → ((i : ℕ) → wakes i ≤ 1)
    → ms * 100 < 2 ^ 32
    → t.ticks < 2 ^ 32
    → elapsed wakes 0 n ≡ max 1 (ms / 10)
    → n < fuel
    → sleep wakes fuel ms t
      ≡ some (record { ticks = u32 (t.ticks + max 1 (ms / 10)); bus = enable_ints t.bus })
unfolding sleep
sleep_lem wakes fuel n ms t one h l e f =
    let wait = max 1 (ms / 10) in
    let ticks : wait_ticks ms ≡ wait = unfold wait_ticks in ground arith in
    rw ticks (
      sleep_loop_lem wakes one t.ticks wait l (omega arith) fuel n 0 0
        (record t { bus = enable_ints t.bus }) f (omega (arith, e)) (omega (arith, l)))

-- Programming a channel leaves the ticks, and what was written to other ports.
pub set_pit_lem :
    (channel mode freq port : ℕ) (t : Timer)
    → channel ≤ 2
    → port ≢ 0x43
    → (port < 0x40) ⊎ (0x42 < port)
    → ((set_pit_channel_mode_frequency channel mode freq t).ticks ≡ t.ticks)
      × (last_byte port (set_pit_channel_mode_frequency channel mode freq t).bus
          ≡ last_byte port t.bus)
unfolding set_pit_channel_mode_frequency
set_pit_lem channel mode freq port t h ne far = ground arith

-- The command of channel `k / 8` in mode `k % 8`.
command :
    (k : ℕ) → k < 24 → bit_or (bit_or (k / 8 * 64) 48) (k % 8 * 2) ≡ k / 8 * 64 + 48 + k % 8 * 2
command k h =
    let table =
      all_below_sound 24
        (λ x. bit_or (bit_or (x / 8 * 64) 48) (x % 8 * 2) == x / 8 * 64 + 48 + x % 8 * 2) k in
    ground (arith, table (unfold all_below in refl) h)

-- What the timer reads out of the words that it is programmed with: the channel in bits 6 and 7 of
-- the command, both bytes of the divider in bits 4 and 5, the mode in bits 1 to 3, and the divider,
-- low byte first. A channel above 2 or a mode above 7 changes nothing.
pub set_pit_channel_mode_frequency_lem :
    (channel mode freq : ℕ) (t : Timer)
    → freq < 2 ^ 16
    → let u = set_pit_channel_mode_frequency channel mode freq t in
      (u.ticks ≡ t.ticks)
      × (u.bus ≡ (
          if ltb 2 channel || ltb 7 mode
          then t.bus
          else set_interrupts 1
            ∷ wrote8 (0x40 + channel) (freq / 256)
            ∷ wrote8 (0x40 + channel) (freq % 256)
            ∷ wrote8 0x43 (channel * 64 + 48 + mode * 2)
            ∷ set_interrupts 0
            ∷ t.bus))
unfolding set_pit_channel_mode_frequency
set_pit_channel_mode_frequency_lem channel mode freq t h =
    elim (Bool-cases (ltb 2 channel || ltb 7 mode)) [
      | inl e ↦ rw e (refl, refl)
      | inr e ↦
          let k = channel * 8 + mode in
          let inside : k < 24 = ground (arith, e) in
          let channel' : k / 8 ≡ channel = ground (arith, e) in
          let mode' : k % 8 ≡ mode = ground (arith, e) in
          let word : bit_or (bit_or (channel * 64) 48) (mode * 2) ≡ channel * 64 + 48 + mode * 2 =
            rw (channel', mode') at (command k inside) in
          let low : u8 (bit_and freq 0xFF) ≡ freq % 256 = omega (arith, bit_and-low 8 freq) in
          let high : u8 (bit_and (freq / 256) 0xFF) ≡ freq / 256 =
            omega (arith, bit_and-low 8 (freq / 256), h) in
          let byte : u8 (channel * 64 + 48 + mode * 2) ≡ channel * 64 + 48 + mode * 2 =
            ground (arith, e) in
          rw (e, word, low, high, byte) (refl, refl)
    ]
