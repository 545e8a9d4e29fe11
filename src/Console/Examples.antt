-- ===== src/Console/Examples.antt =====
-- A screen with text in its last rows, and the claims about it.
use splongle_os.Base.{
  ℕ, ◌+◌, ◌-◌, ◌*◌, ◌/◌, ◌%◌, ◌<◌, ◌≡◌, arith, some, [], ◌∷◌, ltb, leb, ◌==◌, ◌&&◌, if◌then◌else◌,
  u8, get_or,
}
use splongle_os.Console.{Console, scrollback, clrscr, putc, puts, eatc}
use splongle_os.Console.Scroll.{IsBytes, blank, scrollback_lem, clrscr_lem}
use splongle_os.Console.Cursor.{IsValid, hardware_cursor, position, written, putc-IsValid}
use splongle_os.Console.Text.{puts_lem, tab_lem, eatc-putc}

abbrev at : ℕ → ℕ → Console
at x y = record { screen = λ o. o % 256; x = x; y = y; color = 0x0F; bus = [] }

letters : (x y : ℕ) → IsBytes (at x y).screen
letters x y = λ o. omega arith

at-IsValid : (x y : ℕ) → x < 80 → y < 25 → IsValid (at x y)
at-IsValid x y h k = record { column = h; row = k; colored = omega arith; bytes = letters x y }

scrollback_lem_example :
    let t = scrollback 1 (at 0 25) in
    (t.screen 3900 ≡ (
      if ltb 3900 (160 * (25 - 1))
      then (3900 + 160) % 256
      else if ltb 3900 4000
      then blank 0x0F 3900
      else 3900 % 256))
    × (t.x ≡ 0)
    × (t.y ≡ 24)
    × (t.color ≡ 0x0F)
    × (t.bus ≡ [])
scrollback_lem_example = scrollback_lem 1 3900 (at 0 25) (omega arith) (omega arith) (letters 0 25)

clrscr_lem_example :
    ((clrscr (at 3 4)).screen 7 ≡ (if ltb 7 4000 then blank 0x0F 7 else 7))
    × ((clrscr (at 3 4)).x ≡ 0)
    × ((clrscr (at 3 4)).y ≡ 0)
clrscr_lem_example = clrscr_lem 7 (at 3 4)

-- The last cell of the screen: the screen scrolls.
putc-IsValid_example :
    IsValid (putc b'a' (at 79 24))
    × (hardware_cursor (putc b'a' (at 79 24)).bus ≡ some (position (putc b'a' (at 79 24))))
putc-IsValid_example = putc-IsValid b'a' (at 79 24) (at-IsValid 79 24 (omega arith) (omega arith))

puts_lem_example :
    let t = puts (b'o' ∷ b'k' ∷ []) (at 79 3) in
    (t.screen 640 ≡ (
      if leb (2 * position (at 79 3)) 640 && ltb 640 (2 * (position (at 79 3) + 2))
      then if 640 % 2 == 0
        then u8 (get_or (b'o' ∷ b'k' ∷ []) (640 / 2 - position (at 79 3)) 0)
        else 0x0F
      else 640 % 256))
    × (position t ≡ position (at 79 3) + 2)
    × (t.color ≡ 0x0F)
puts_lem_example =
    puts_lem (b'o' ∷ b'k' ∷ []) 640 (at 79 3) (at-IsValid 79 3 (omega arith) (omega arith))
      ((omega arith, omega arith, omega arith), ((omega arith, omega arith, omega arith), tt))
      (omega arith)

tab_lem_example : ((putc b'\t' (at 5 2)).x ≡ 7) × ((putc b'\t' (at 5 2)).y ≡ 2)
tab_lem_example = tab_lem (at 5 2) (at-IsValid 5 2 (omega arith) (omega arith)) (omega arith)

eatc-putc_example :
    let t = eatc (putc b'a' (at 5 2)) in
    (t.x ≡ 5)
    × (t.y ≡ 2)
    × (t.screen 330 ≡ (if 330 == 2 * position (at 5 2) then b' ' else written (at 5 2) b'a' 330))
eatc-putc_example =
    eatc-putc b'a' 330 (at 5 2) (at-IsValid 5 2 (omega arith) (omega arith))
      (omega arith, omega arith, omega arith) (omega arith)
