-- ===== src/Rtc.antt =====
-- src/kernel/arch/i686/rtc.c: the real time clock, read from the CMOS. What the clock answers is the
-- device of the model.
pub mod Clock
pub mod DateText
pub mod Display
pub mod Handler
pub mod Periodic
mod Examples
use splongle_os.Base.{
  codes, leb, List, [], ◌∷◌, ℕ, zero, suc, ◌+◌, ◌*◌, ◌/◌, ◌%◌, bit_and, bit_or, Bool, true, false,
  not, ◌&&◌, Option, none, some, ◌>>=◌, ◌==◌, if◌then◌else◌, u8, u16,
}
use splongle_os.Console.{Console}
use splongle_os.Console.Place.{at_place}
use splongle_os.Printk.{printk}
use splongle_os.Ports.{Bus, Device, outb, inb, enable_ints, disable_ints}

-- `datetime_t`
pub record DateTime : Type 0 where
  pub second : ℕ
  pub minute : ℕ
  pub hour : ℕ
  pub day : ℕ
  pub month : ℕ
  pub year : ℕ

abbrev pub cmos_address : ℕ
cmos_address = 0x70

abbrev pub cmos_data : ℕ
cmos_data = 0x71

pub cmos_update_in_progress : Device → Bus → Bool × Bus
cmos_update_in_progress device bus =
    let (value, after) = inb device cmos_data (outb cmos_address 0x8A bus) in
    (not (bit_and value 0x80 == 0), after)

pub get_rtc_register : ℕ → Device → Bus → ℕ × Bus
get_rtc_register reg device bus = inb device cmos_data (outb cmos_address (bit_or reg 0x80) bus)

-- `while (cmos_update_in_progress()) ;`, none when the fuel is spent.
pub wait_for_cmos : ℕ → Device → Bus → Option Bus
wait_for_cmos zero device bus = none
wait_for_cmos (suc fuel) device bus =
    let (busy, after) = cmos_update_in_progress device bus in
    let rest = wait_for_cmos fuel device after in if busy then rest else some after

-- The six registers, in the order of the source.
pub read_datetime : Device → Bus → DateTime × Bus
read_datetime device bus =
    let (second, b0) = get_rtc_register 0x00 device bus in
    let (minute, b1) = get_rtc_register 0x02 device b0 in
    let (hour, b2) = get_rtc_register 0x04 device b1 in
    let (day, b3) = get_rtc_register 0x07 device b2 in
    let (month, b4) = get_rtc_register 0x08 device b3 in
    let (year, b5) = get_rtc_register 0x09 device b4 in
    (
      record {
        second = second;
        minute = minute;
        hour = hour;
        day = day;
        month = month;
        year = year;
      },
      b5,
    )

abbrev pub same_datetime : DateTime → DateTime → Bool
same_datetime s t =
    (s.second == t.second)
    && (s.minute == t.minute)
    && (s.hour == t.hour)
    && (s.day == t.day)
    && (s.month == t.month)
    && (s.year == t.year)

-- The `do ... while`: another reading, until it is the same as the one before.
pub settle : ℕ → ℕ → Device → DateTime → Bus → Option (DateTime × Bus)
settle spins zero device old bus = none
settle spins (suc fuel) device old bus = do
  ready ← wait_for_cmos spins device bus
  let (new, after) = read_datetime device ready
  let rest = settle spins fuel device new after
  if same_datetime old new then some (new, after) else rest

abbrev pub from_bcd : ℕ → ℕ
from_bcd value = u8 (bit_and value 0x0F + value / 16 * 10)

abbrev pub hour_from_bcd : ℕ → ℕ
hour_from_bcd hour =
    u8 (bit_or (bit_and hour 0x0F + bit_and hour 0x70 / 16 * 10) (bit_and hour 0x80))

-- From BCD, if bit 2 of register B is clear.
pub to_binary : ℕ → DateTime → DateTime
to_binary reg_b t =
    if bit_and reg_b 0x04 == 0
    then record {
      second = from_bcd t.second;
      minute = from_bcd t.minute;
      hour = hour_from_bcd t.hour;
      day = from_bcd t.day;
      month = from_bcd t.month;
      year = u16 (bit_and t.year 0x0F + t.year / 16 * 10);
    }
    else t

-- From 12 to 24 hours, if bit 1 of register B is clear and the top bit of the hour is set.
pub to_24_hours : ℕ → DateTime → DateTime
to_24_hours reg_b t =
    if (bit_and reg_b 0x02 == 0) && not (bit_and t.hour 0x80 == 0)
    then record t { hour = (bit_and t.hour 0x7F + 12) % 24 }
    else t

-- What is stored for the registers that were read.
pub decode : ℕ → DateTime → DateTime
decode reg_b t =
    let u = to_24_hours reg_b (to_binary reg_b t) in record u { year = u16 (u.year + 2000) }

-- In the lower right corner.
pub print_datetime : DateTime → Console → Option Console
print_datetime t s =
    let args = t.day ∷ t.month ∷ t.year ∷ t.hour ∷ t.minute ∷ t.second ∷ [] in
    at_place 60 23
      (λ c.
        if leb 10 t.second
        then printk (λ a. []) (codes "%d-%d-%d %d:%d:%d") args c
        else printk (λ a. []) (codes "%d-%d-%d %d:%d:0%d") args c)
      s

pub blank_datetime : Console → Option Console
blank_datetime s = at_place 60 23 (λ c. printk (λ a. []) (codes "                    ") [] c) s

-- `RTC_ticks`, `*g_datetime`, `show_datetime` and the screen, whose ports are those of the clock.
pub record Rtc : Type 0 where
  pub ticks : ℕ
  pub datetime : DateTime
  pub show_datetime : Bool
  pub console : Console

abbrev pub on_bus : Bus → Console → Console
on_bus bus c = record c { bus = bus }

-- What is done with the display of the date and time, by `show_datetime`.
pub show : Bool → DateTime → Console → Option Console
show shown t c = if shown then print_datetime t c else blank_datetime c

-- The end of `RTC_Handler`: register C is read, so that the next interrupt comes.
abbrev pub acknowledge : Device → Rtc → Rtc
acknowledge device r =
    let (ignored, after) = get_rtc_register 0x0C device r.console.bus in
    record r { console = on_bus (enable_ints after) r.console }

-- Once a second: none when the clock does not settle within the fuel.
pub read_clock : ℕ → ℕ → Device → Rtc → Option Rtc
read_clock spins fuel device r = do
  ready ← wait_for_cmos spins device r.console.bus
  let (first, bus1) = read_datetime device ready
  (settled, bus2) ← settle spins fuel device first bus1
  let (reg_b, bus3) = get_rtc_register 0x0B device bus2
  let datetime = decode reg_b settled
  console ← show r.show_datetime datetime (on_bus bus3 r.console)
  some (record r { datetime = datetime; console = console })

pub update_clock : ℕ → ℕ → Device → Rtc → Option Rtc
update_clock spins fuel device r = do
  s ← read_clock spins fuel device r
  some (acknowledge device s)

pub rtc_handler : ℕ → ℕ → Device → Rtc → Option Rtc
rtc_handler spins fuel device r =
    let ticks = u16 (r.ticks + 1) in
    let s = record r { ticks = ticks; console = on_bus (disable_ints r.console.bus) r.console } in
    if ticks % 1024 == 0
    then update_clock spins fuel device (record s { ticks = 0 })
    else some (acknowledge device s)

pub enable_rtc : Device → Bus → Bus
enable_rtc device bus =
    let (prev_b, b0) = get_rtc_register 0x0B device bus in
    let b1 = outb cmos_data (bit_or prev_b 0x40) (outb cmos_address 0x8B b0) in
    let (ignored, b2) = get_rtc_register 0x0C device b1 in b2

pub disable_rtc : Device → Bus → Bus
disable_rtc device bus =
    let (prev_b, b0) = get_rtc_register 0x0B device (disable_ints bus) in
    enable_ints (outb cmos_data (bit_and prev_b 0xBF) (outb cmos_address 0x8B b0))

pub set_show_datetime : Rtc → Rtc
set_show_datetime r = record r { show_datetime = not r.show_datetime }
