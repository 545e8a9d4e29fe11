-- ===== src/Rtc/Clock.antt =====
-- What the clock's registers are decoded to.
use splongle_os.Base.{
  ℕ, ◌+◌, ◌*◌, ◌/◌, ◌%◌, ◌<◌, ◌≡◌, ◌≢◌, inl, inr, refl, arith, bit_and, false, ltb, ◌==◌,
  if◌then◌else◌, u16, all_below, all_below_sound, Bool-cases,
}
use splongle_os.Rtc.{DateTime, from_bcd, hour_from_bcd, to_binary, to_24_hours, decode}

-- Two decimal digits in a byte.
abbrev pub bcd : ℕ → ℕ
bcd n = n / 10 * 16 + n % 10

-- The hour register in the 12-hour mode, with the top bit set after noon.
abbrev pub hour_12 : (ℕ → ℕ) → ℕ → ℕ
hour_12 encode h =
    let shown = if h % 12 == 0 then 12 else h % 12 in encode shown + (if ltb h 12 then 0 else 128)

from_bcd-bcd : (n : ℕ) → n < 100 → from_bcd (bcd n) ≡ n
from_bcd-bcd n h =
    let table = all_below_sound 100 (λ x. from_bcd (bcd x) == x) n in
    ground (arith, table (unfold all_below in refl) h)

hour_from_bcd-bcd : (h : ℕ) → h < 24 → hour_from_bcd (bcd h) ≡ h
hour_from_bcd-bcd h l =
    let table = all_below_sound 24 (λ x. hour_from_bcd (bcd x) == x) h in
    ground (arith, table (unfold all_below in refl) l)

year_from_bcd :
    (n : ℕ) → n < 100 → u16 (u16 (bit_and (bcd n) 0x0F + bcd n / 16 * 10) + 2000) ≡ 2000 + n
year_from_bcd n h =
    let table =
      all_below_sound 100
        (λ x. u16 (u16 (bit_and (bcd x) 0x0F + bcd x / 16 * 10) + 2000) == 2000 + x) n in
    ground (arith, table (unfold all_below in refl) h)

-- The registers of a clock in the 24-hour mode, whose bit 2 of register B tells whether they are
-- binary.
abbrev pub encode : ℕ → ℕ → ℕ
encode reg_b n = if bit_and reg_b 0x04 == 0 then bcd n else n

abbrev pub registers : ℕ → DateTime → DateTime
registers reg_b t = record {
  second = encode reg_b t.second;
  minute = encode reg_b t.minute;
  hour = encode reg_b t.hour;
  day = encode reg_b t.day;
  month = encode reg_b t.month;
  year = encode reg_b t.year;
}

-- The registers of a clock in the 24-hour mode, in BCD or in binary, that hold a date and time are
-- decoded to that date and time, with 2000 added to the year.
pub decode_24_hours :
    (reg_b second minute hour day month year : ℕ)
    → bit_and reg_b 0x02 ≢ 0
    → second < 60
    → minute < 60
    → hour < 24
    → day < 32
    → month < 13
    → year < 100
    → let t : DateTime = record {
      second = second;
      minute = minute;
      hour = hour;
      day = day;
      month = month;
      year = year;
    } in
      decode reg_b (registers reg_b t) ≡ record t { year = 2000 + year }
unfolding decode to_24_hours to_binary
decode_24_hours reg_b second minute hour day month year full h i j k l m =
    let mode : (bit_and reg_b 0x02 == 0) ≡ false = ground arith in
    elim (Bool-cases (bit_and reg_b 0x04 == 0)) [
      | inl e ↦
          rw
            (
              mode,
              e,
              from_bcd-bcd second (omega arith),
              from_bcd-bcd minute (omega arith),
              hour_from_bcd-bcd hour j,
              from_bcd-bcd day (omega arith),
              from_bcd-bcd month (omega arith),
              year_from_bcd year m,
            )
            refl
      | inr e ↦
          let century : u16 (year + 2000) ≡ 2000 + year = omega arith in rw (mode, e, century) refl
    ]

abbrev to_24 : ℕ → ℕ
to_24 hour = if bit_and hour 0x80 == 0 then hour else (bit_and hour 0x7F + 12) % 24

abbrev decoded : ℕ → ℕ
decoded hour = if hour == 0 then 12 else if hour == 12 then 0 else hour

-- The hours of a clock in the 12-hour mode, in BCD or in binary, are decoded to the hours of the
-- day, but for two: midnight becomes 12 and noon becomes 0.
pub decode_12_hours :
    (reg_b hour : ℕ) (t : DateTime)
    → bit_and reg_b 0x02 ≡ 0
    → hour < 24
    → let shown = hour_12 (encode reg_b) hour in
      (decode reg_b (record t { hour = shown })).hour
      ≡ (if hour == 0 then 12 else if hour == 12 then 0 else hour)
unfolding decode to_24_hours to_binary
decode_12_hours reg_b hour t half h =
    let in_bcd =
      all_below_sound 24 (λ x. to_24 (hour_from_bcd (hour_12 bcd x)) == decoded x) hour in
    let in_binary = all_below_sound 24 (λ x. to_24 (hour_12 (λ n. n) x) == decoded x) hour in
    elim (Bool-cases (bit_and reg_b 0x04 == 0)) [
      | inl e ↦ rw (half, e) (ground (arith, in_bcd (unfold all_below in refl) h))
      | inr e ↦ rw (half, e) (ground (arith, in_binary (unfold all_below in refl) h))
    ]
