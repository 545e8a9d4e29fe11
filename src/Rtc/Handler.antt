-- ===== src/Rtc/Handler.antt =====
-- `RTC_Handler` on a clock whose registers do not change while they are read.
use splongle_os.Base.{
  ℕ, suc, ◌+◌, ◌*◌, ◌%◌, ◌^◌, ◌<◌, ◌≡◌, inl, inr, Bool-cases, refl, arith, bit_and, bit_or, true,
  false, some, ◌==◌, if◌then◌else◌, u8, u16,
}
use splongle_os.Base.Bits.{bit_and-high, zero-bit_and}
use splongle_os.Ports.{Bus, Device, disable_ints, last_byte}
use splongle_os.Console.{Console}
use splongle_os.Rtc.Display.{show-some}
use splongle_os.Rtc.{
  on_bus, show, DateTime, Rtc, decode, acknowledge, rtc_handler, update_clock, read_clock, settle,
  wait_for_cmos, cmos_update_in_progress, get_rtc_register, read_datetime, same_datetime,
}

-- The data port answers with the register that the address port selects (bit 7 of the address
-- switches the NMI, and selects nothing), and no update is in progress.
pub record IsSteady (registers : ℕ → ℕ) (device : Device) : Type 0 where
  pub answer : (bus : Bus) → device bus 0x71 ≡ registers (last_byte 0x70 bus % 128)
  pub bytes : (r : ℕ) → registers r < 2 ^ 8
  pub ready : registers 10 < 128

abbrev pub shown : (ℕ → ℕ) → DateTime
shown registers = record {
  second = registers 0;
  minute = registers 2;
  hour = registers 4;
  day = registers 7;
  month = registers 8;
  year = registers 9;
}

top_bit : (w : ℕ) → w < 128 → bit_and w 0x80 ≡ 0
top_bit w h =
    let high = bit_and-high 7 0 w 1 h in
    let zero' : bit_and (0 * 2 ^ 7 + w) 0x80 ≡ 0 = omega (arith, high, zero-bit_and 1) in
    let same : 0 * 2 ^ 7 + w ≡ w = omega arith in rw same at zero'

module _ (registers : ℕ → ℕ) (device : Device) (s : IsSteady registers device) where
  pub get_rtc_register_lem :
      (reg : ℕ) (bus : Bus)
      → u8 (bit_or reg 0x80) % 128 ≡ reg
      → (get_rtc_register reg device bus).0 ≡ registers reg
  unfolding get_rtc_register
  get_rtc_register_lem reg bus e = rw (s.answer _, e) (let b = s.bytes reg in omega arith)

  read_datetime_lem : (bus : Bus) → (read_datetime device bus).0 ≡ shown registers
  unfolding read_datetime
  read_datetime_lem bus =
      rw
        (
          get_rtc_register_lem 0 _ refl,
          get_rtc_register_lem 2 _ refl,
          get_rtc_register_lem 4 _ refl,
          get_rtc_register_lem 7 _ refl,
          get_rtc_register_lem 8 _ refl,
          get_rtc_register_lem 9 _ refl,
        )
        refl

  idle : (bus : Bus) → (cmos_update_in_progress device bus).0 ≡ false
  unfolding cmos_update_in_progress
  idle bus = rw (s.answer _) (ground (arith, s.bytes 10, s.ready, top_bit (registers 10)))

  wait_for_cmos_lem :
      (spins : ℕ) (bus : Bus)
      → wait_for_cmos (suc spins) device bus ≡ some (cmos_update_in_progress device bus).1
  unfolding wait_for_cmos
  wait_for_cmos_lem spins bus = rw (idle bus) refl

  same_shown : same_datetime (shown registers) (shown registers) ≡ true
  same_shown = ground arith

  settle_lem :
      (spins fuel : ℕ) (bus : Bus)
      → (b : Bus) × (settle (suc spins) (suc fuel) device (shown registers) bus
          ≡ some (shown registers, b))
  unfolding settle
  settle_lem spins fuel bus =
      let ready = (cmos_update_in_progress device bus).1 in
      (
        (read_datetime device ready).1,
        rw (wait_for_cmos_lem spins bus) (rw (read_datetime_lem ready, same_shown) refl),
      )

  read_clock_lem :
      (spins fuel : ℕ) (r : Rtc)
      → (b : Bus) × (c : Console) × (show r.show_datetime
            (decode (registers 11) (shown registers))
            (on_bus b r.console)
          ≡ some c)
        × (read_clock (suc spins) (suc fuel) device r
            ≡ some (record r { datetime = decode (registers 11) (shown registers); console = c }))
  unfolding read_clock
  read_clock_lem spins fuel r =
      let ready = (cmos_update_in_progress device r.console.bus).1 in
      let (b, settled) = settle_lem spins fuel (read_datetime device ready).1 in
      let datetime = decode (registers 11) (shown registers) in
      let after = (get_rtc_register 11 device b).1 in
      let (c, painted) = show-some r.show_datetime datetime (on_bus after r.console) in
      (
        after,
        c,
        painted,
        rw (wait_for_cmos_lem spins r.console.bus) (
            rw (read_datetime_lem ready)
              (rw settled (rw (get_rtc_register_lem 11 b refl) (rw painted refl)))),
      )

  -- `RTC_Handler` on a clock whose registers do not change and that is not being updated, with
  -- fewer than 1024 ticks counted: it ends, with one reading after the first; at the 1024th tick
  -- it stores the decoded date and time, starts to count again, and the screen is as
  -- `print_datetime` of them leaves it if they are to be shown and as `blank_datetime` leaves it
  -- if not; else it only counts.
  pub rtc_handler_lem :
      (spins fuel : ℕ) (r : Rtc)
      → r.ticks < 1024
      → let datetime = decode (registers 11) (shown registers) in
        (b : Bus) × (b' : Bus) × (c : Console) × (show r.show_datetime datetime (on_bus b r.console)
          ≡ some c)
        × (rtc_handler (suc spins) (suc fuel) device r
            ≡ some (
                if r.ticks == 1023
                then record r { ticks = 0; datetime = datetime; console = on_bus b' c }
                else record r { ticks = r.ticks + 1; console = on_bus b' r.console }))
  unfolding rtc_handler update_clock
  rtc_handler_lem spins fuel r h =
      let start : Rtc = record r {
        ticks = 0;
        console = on_bus (disable_ints r.console.bus) r.console;
      } in
      let (b, c, painted, clock) = read_clock_lem spins fuel start in
      elim (Bool-cases (r.ticks == 1023)) [
        | inl e ↦
            let count : u16 (r.ticks + 1) ≡ 1024 = ground arith in
            (
              b,
              (acknowledge device (record start { console = c })).console.bus,
              c,
              painted,
              rw (count, e, clock) refl,
            )
        | inr e ↦
            let count : u16 (r.ticks + 1) ≡ r.ticks + 1 = omega arith in
            let quiet : ((r.ticks + 1) % 1024 == 0) ≡ false = ground arith in
            (b, (acknowledge device start).console.bus, c, painted, rw (count, e, quiet) refl)
      ]
