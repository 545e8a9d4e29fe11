-- ===== src/Rtc/Examples.antt =====
-- A clock at 23:59:07 on the last day of 2024, and the claims about it.
use splongle_os.Base.{
  codes, length, ◌≤◌, ℕ, ◌%◌, ◌≡◌, refl, arith, true, some, [], ◌==◌, if◌then◌else◌,
}
use splongle_os.Ports.{Bus, Device, last_byte}
use splongle_os.Console.{Console}
use splongle_os.Console.Cursor.{IsValid}
use splongle_os.Console.Place.{IsShown}
use splongle_os.Printk.Decimal.{two_digits}
use splongle_os.Rtc.{
  DateTime, Rtc, decode, on_bus, show, print_datetime, blank_datetime, rtc_handler, enable_rtc,
  disable_rtc,
}
use splongle_os.Rtc.DateText.{IsDate, date_text}
use splongle_os.Rtc.Display.{print_datetime-IsShown, blank_datetime-IsShown}
use splongle_os.Rtc.Clock.{encode, hour_12, registers, decode_24_hours, decode_12_hours}
use splongle_os.Base.Bits.{bit}
use splongle_os.Rtc.Periodic.{periodic_lem}
use splongle_os.Rtc.Handler.{IsSteady, shown, rtc_handler_lem}

abbrev new_year : ℕ → DateTime
new_year year = record { second = 7; minute = 59; hour = 23; day = 31; month = 12; year = year }

decode_24_hours_example : decode 2 (registers 2 (new_year 24)) ≡ new_year 2024
decode_24_hours_example =
    decode_24_hours 2 7 59 23 31 12 24 (omega arith) (omega arith) (omega arith) (omega arith)
      (omega arith) (omega arith) (omega arith)

-- Noon is stored as hour 0.
decode_12_hours_example :
    (decode 0 (record (new_year 24) { hour = hour_12 (encode 0) 12 })).hour ≡ 0
decode_12_hours_example = decode_12_hours 0 12 (new_year 24) refl (omega arith)

-- The registers of the CMOS, in BCD.
abbrev cmos : ℕ → ℕ
cmos r =
    if r == 0
    then 0x07
    else if r == 2
    then 0x59
    else if r == 4
    then 0x23
    else if r == 7
    then 0x31
    else if r == 8
    then 0x12
    else if r == 9
    then 0x24
    else 2

abbrev clock : Device
clock = λ bus port. cmos (last_byte 0x70 bus % 128)

clock-IsSteady : IsSteady cmos clock
clock-IsSteady = record { answer = λ bus. refl; bytes = λ r. ground arith; ready = omega arith }

abbrev screen : Console
screen = record { screen = λ o. o % 256; x = 3; y = 4; color = 0x0F; bus = [] }

screen-IsValid : IsValid screen
screen-IsValid = record {
  column = omega arith;
  row = omega arith;
  colored = omega arith;
  bytes = λ o. omega arith;
}

abbrev about_to_tick : Rtc
about_to_tick = record {
  ticks = 1023;
  datetime = new_year 2000;
  show_datetime = true;
  console = screen;
}

rtc_handler_lem_example :
    (b : Bus) × (b' : Bus) × (c : Console) × (show true (decode 2 (shown cmos)) (on_bus b screen)
      ≡ some c)
    × (rtc_handler 1 1 clock about_to_tick
        ≡ some (record {
          ticks = 0;
          datetime = decode 2 (shown cmos);
          show_datetime = true;
          console = on_bus b' c;
        }))
rtc_handler_lem_example = rtc_handler_lem cmos clock clock-IsSteady 0 0 about_to_tick (omega arith)

new_year-IsDate : IsDate (new_year 2024)
new_year-IsDate = record {
  second = omega arith;
  minute = omega arith;
  hour = omega arith;
  day = omega arith;
  month = omega arith;
  year = omega arith;
}

print_datetime-IsShown_example :
    (u : Console) × (print_datetime (new_year 2024) screen ≡ some u)
    × IsShown screen u 1900 (date_text (two_digits 7) (new_year 2024))
    × (length (date_text (two_digits 7) (new_year 2024)) ≤ 19)
print_datetime-IsShown_example =
    print_datetime-IsShown (new_year 2024) screen new_year-IsDate screen-IsValid

blank_datetime-IsShown_example :
    (u : Console) × (blank_datetime screen ≡ some u)
    × IsShown screen u 1900 (codes "                    ")
blank_datetime-IsShown_example = blank_datetime-IsShown screen screen-IsValid

periodic_lem_example :
    (bit 6 (last_byte 0x71 (enable_rtc clock [])) ≡ 1)
    × (bit 6 (last_byte 0x71 (disable_rtc clock [])) ≡ 0)
periodic_lem_example = periodic_lem cmos clock 6 [] clock-IsSteady (omega arith)
