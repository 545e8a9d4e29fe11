-- ===== src/Console.antt =====
-- src/kernel/stdio.c, its text screen: `putc`, `puts`, `eatc`, `clrscr`, `scrollback` and the cursor.
-- The coordinates are C `int`s that are never negative here, so they are natural numbers; what is
-- stored at 0xB8000 is a function of the offset.
pub mod Scroll
pub mod Cursor
pub mod Text
pub mod Place
pub mod Within
mod Examples
use splongle_os.Base.{
  ℕ, zero, suc, ◌+◌, ◌-◌, ◌*◌, ◌/◌, ◌%◌, ◌^◌, Bool, true, false, List, [], ◌∷◌, ◌&&◌, ltb, leb,
  ◌==◌, if◌then◌else◌, u8, u32, update,
}
use splongle_os.Ports.{Bus, outb}

pub record Console : Type 0 where
  pub screen : ℕ → ℕ
  pub x : ℕ
  pub y : ℕ
  pub color : ℕ
  pub bus : Bus

abbrev pub screen_width : ℕ
screen_width = 80

abbrev pub screen_height : ℕ
screen_height = 25

-- The offset of a character; its colour is in the next byte. `unsigned` arithmetic.
abbrev pub cell : ℕ → ℕ → ℕ
cell x y = u32 (2 * (y * screen_width + x))

pub putchr : ℕ → ℕ → ℕ → Console → Console
putchr x y c s = record s { screen = update s.screen (cell x y) (u8 c) }

pub putcolor : ℕ → ℕ → ℕ → Console → Console
putcolor x y c s = record s { screen = update s.screen (u32 (cell x y + 1)) (u8 c) }

pub getchr : ℕ → ℕ → Console → ℕ
getchr x y s = s.screen (cell x y)

pub getcolor : ℕ → ℕ → Console → ℕ
getcolor x y s = s.screen (u32 (cell x y + 1))

pub change_color : ℕ → Console → Console
change_color c s = record s { color = u8 c }

pub default_color : Console → Console
default_color s = record s { color = 0x0F }

-- Writes the position to the CRT controller, low byte first.
pub setcursor : ℕ → ℕ → Console → Console
setcursor x y s =
    let pos = y * screen_width + x in
    record s {
      bus = outb 0x3D5 (pos / 256) (outb 0x3D4 0x0E (outb 0x3D5 pos (outb 0x3D4 0x0F s.bus)));
    }

abbrev pub get_x : Console → ℕ
get_x s = s.x

abbrev pub get_y : Console → ℕ
get_y s = s.y

abbrev pub set_x : ℕ → Console → Console
set_x x s = record s { x = x }

abbrev pub set_y : ℕ → Console → Console
set_y y s = record s { y = y }

-- A blank in the current colour.
pub blank_cell : ℕ → ℕ → Console → Console
blank_cell x y s = putcolor x y s.color (putchr x y b' ' s)

-- The loop over `x`, with `rounds` left.
pub blank_row : ℕ → ℕ → ℕ → Console → Console
blank_row zero x y s = s
blank_row (suc rounds) x y s = blank_row rounds (x + 1) y (blank_cell x y s)

-- The loop over `y`.
pub blank_rows : ℕ → ℕ → Console → Console
blank_rows zero y s = s
blank_rows (suc rounds) y s = blank_rows rounds (y + 1) (blank_row screen_width 0 y s)

pub clrscr : Console → Console
clrscr s = setcursor 0 0 (record (blank_rows screen_height 0 s) { x = 0; y = 0 })

pub copy_cell : ℕ → ℕ → ℕ → Console → Console
copy_cell lines x y s =
    let t = putchr x (y - lines) (getchr x y s) s in putcolor x (y - lines) (getcolor x y t) t

pub copy_row : ℕ → ℕ → ℕ → ℕ → Console → Console
copy_row lines zero x y s = s
copy_row lines (suc rounds) x y s = copy_row lines rounds (x + 1) y (copy_cell lines x y s)

pub copy_rows : ℕ → ℕ → ℕ → Console → Console
copy_rows lines zero y s = s
copy_rows lines (suc rounds) y s =
    copy_rows lines rounds (y + 1) (copy_row lines screen_width 0 y s)

pub scrollback : ℕ → Console → Console
scrollback lines s =
    let t =
      blank_rows lines (screen_height - lines) (copy_rows lines (screen_height - lines) lines s) in
    record t { y = t.y - lines }

-- What `putc` does behind its switch.
pub finish : Console → Console
finish s =
    let t = if leb screen_width s.x then record s { y = s.y + 1; x = 0 } else s in
    let u = if leb screen_height t.y then scrollback 1 t else t in setcursor u.x u.y u

-- `putc` of anything but a tab.
pub putc_plain : ℕ → Console → Console
putc_plain c s =
    if c == b'\n'
    then finish (record s { x = 0; y = s.y + 1 })
    else if c == b'\r'
    then finish (record s { x = 0 })
    else let t = putcolor s.x s.y s.color (putchr s.x s.y c s) in finish (record t { x = t.x + 1 })

-- `for (int i = 0; i < 4 - (g_ScreenX % 4); ++i) putc(' ');`. The bound is read anew each round and
-- is at most 4, so four rounds of fuel are enough.
pub tab_loop : ℕ → ℕ → Console → Console
tab_loop zero i s = s
tab_loop (suc fuel) i s = elim (ltb i (4 - s.x % 4)) [
  | true ↦ tab_loop fuel (i + 1) (putc_plain b' ' s)
  | false ↦ s
]

pub putc : ℕ → Console → Console
putc c s = if c == b'\t' then finish (tab_loop 4 0 s) else putc_plain c s

-- The characters of the string before its end.
pub puts : List ℕ → Console → Console
puts [] s = s
puts (c ∷ str) s = puts str (putc c s)

-- Deletes a character.
pub eatc : Console → Console
eatc s =
    let t =
      if ltb 0 s.x then record s { x = s.x - 1 } else record s { x = screen_width; y = s.y - 1 } in
    if (s.x == 0) && (s.y == 0) then s else putchr t.x t.y b' ' (setcursor t.x t.y t)

-- 75 is the left arrow, 77 the right arrow.
pub movecursor : ℕ → Console → Console
movecursor scancode s =
    let left = record s { x = s.x - 1 } in
    let right = record s { x = s.x + 1 } in
    if (scancode == 75) && ((s.x == 0) && (s.y == 0))
    then s
    else if (scancode == 75) && ltb 2 s.x
    then setcursor left.x left.y left
    else if (scancode == 77) && ((s.x == screen_width) && (s.y == screen_height))
    then s
    else if (scancode == 77) && ltb s.x screen_width
    then setcursor right.x right.y right
    else s
