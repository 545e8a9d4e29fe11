-- ===== src/Console/Scroll.antt =====
-- `scrollback` and `clrscr`: what every byte of the screen is afterwards.
use splongle_os.Base.{
  ℕ, zero, suc, ◌+◌, ◌-◌, ◌*◌, ◌%◌, ◌≤◌, ◌<◌, ◌≡◌, refl, arith, ◌&&◌, ltb, leb, ◌==◌, if◌then◌else◌,
  u8,
}
use splongle_os.Console.{
  Console, putchr, putcolor, getchr, getcolor, blank_cell, blank_row, blank_rows, copy_cell,
  copy_row, copy_rows, scrollback, clrscr, setcursor,
}

-- Every place of the screen holds a byte.
abbrev pub IsBytes : (ℕ → ℕ) → Type 0
IsBytes screen = (o : ℕ) → screen o < 256

-- A blank character has its colour in the odd byte.
abbrev pub blank : ℕ → ℕ → ℕ
blank color o = if o % 2 == 0 then b' ' else u8 color

-- The first `k` cells are those that stood `lines` rows further down, the others are unchanged.
abbrev Shifted : ℕ → (ℕ → ℕ) → ℕ → Console → Type 0
Shifted lines old k s =
    (o : ℕ) → s.screen o ≡ (if ltb o (2 * k) then old (o + 160 * lines) else old o)

module _ (lines : ℕ) (old : ℕ → ℕ) (bytes : IsBytes old) (pos : 0 < lines) where
  copy_cell-Shifted :
      (x y k : ℕ) (s : Console)
      → lines ≤ y
      → y < 25
      → x < 80
      → k ≡ 80 * (y - lines) + x
      → Shifted lines old k s
      → Shifted lines old (k + 1) (copy_cell lines x y s)
  unfolding copy_cell putchr putcolor getchr getcolor
  copy_cell-Shifted x y k s l m n e h o =
      ground (arith, h o, h (2 * (y * 80 + x)), h (2 * (y * 80 + x) + 1), bytes (o + 160 * lines))

  copy_row-Shifted :
      (rounds x y k : ℕ) (s : Console)
      → lines ≤ y
      → y < 25
      → x + rounds ≤ 80
      → k ≡ 80 * (y - lines) + x
      → Shifted lines old k s
      → Shifted lines old (k + rounds) (copy_row lines rounds x y s)
  unfolding copy_row
  copy_row-Shifted zero x y k s l m n e h o = ground (arith, h o)
  copy_row-Shifted (suc rounds) x y k s l m n e h o =
      let next = copy_cell-Shifted x y k s l m (omega arith) e h in
      ground (
        arith,
        copy_row-Shifted rounds (x + 1) y (k + 1) (copy_cell lines x y s) l m (omega arith)
            (omega arith) next o,
      )

  copy_rows-Shifted :
      (rounds y : ℕ) (s : Console)
      → lines ≤ y
      → y + rounds ≤ 25
      → Shifted lines old (80 * (y - lines)) s
      → Shifted lines old (80 * (y + rounds - lines)) (copy_rows lines rounds y s)
  unfolding copy_rows
  copy_rows-Shifted zero y s l n h o = ground (arith, h o)
  copy_rows-Shifted (suc rounds) y s l n h o =
      let row =
        copy_row-Shifted 80 0 y (80 * (y - lines)) s l (omega arith) (omega arith) (omega arith)
          h in
      ground (
        arith,
        copy_rows-Shifted rounds (y + 1) (copy_row lines 80 0 y s) (omega arith) (omega arith)
            (λ q. ground (arith, row q)) o,
      )

-- The parts of the state that the loops over the cells leave alone.
abbrev SameCursor : Console → Console → Type 0
SameCursor s t = (t.x ≡ s.x) × (t.y ≡ s.y) × (t.color ≡ s.color) × (t.bus ≡ s.bus)

copy_row_frame : (lines rounds x y : ℕ) (s : Console) → SameCursor s (copy_row lines rounds x y s)
unfolding copy_row copy_cell putchr putcolor
copy_row_frame lines zero x y s = (refl, refl, refl, refl)
copy_row_frame lines (suc rounds) x y s =
    copy_row_frame lines rounds (x + 1) y (copy_cell lines x y s)

copy_rows_frame : (lines rounds y : ℕ) (s : Console) → SameCursor s (copy_rows lines rounds y s)
unfolding copy_rows
copy_rows_frame lines zero y s = (refl, refl, refl, refl)
copy_rows_frame lines (suc rounds) y s =
    let t = copy_row lines 80 0 y s in
    ground (arith, copy_rows_frame lines rounds (y + 1) t, copy_row_frame lines 80 0 y s)

blank_row_frame : (rounds x y : ℕ) (s : Console) → SameCursor s (blank_row rounds x y s)
unfolding blank_row blank_cell putchr putcolor
blank_row_frame zero x y s = (refl, refl, refl, refl)
blank_row_frame (suc rounds) x y s = blank_row_frame rounds (x + 1) y (blank_cell x y s)

blank_rows_frame : (rounds y : ℕ) (s : Console) → SameCursor s (blank_rows rounds y s)
unfolding blank_rows
blank_rows_frame zero y s = (refl, refl, refl, refl)
blank_rows_frame (suc rounds) y s =
    let t = blank_row 80 0 y s in
    ground (arith, blank_rows_frame rounds (y + 1) t, blank_row_frame 80 0 y s)

screen-blank_row :
    (rounds x y o : ℕ) (s : Console)
    → x + rounds ≤ 80
    → y < 25
    → (blank_row rounds x y s).screen o ≡ (
        if leb (2 * (80 * y + x)) o && ltb o (2 * (80 * y + x + rounds))
        then blank s.color o
        else s.screen o)
unfolding blank_row blank_cell putchr putcolor
screen-blank_row zero x y o s h k = ground arith
screen-blank_row (suc rounds) x y o s h k =
    ground (arith, screen-blank_row rounds (x + 1) y o (blank_cell x y s))

screen-blank_rows :
    (rounds y o : ℕ) (s : Console)
    → y + rounds ≤ 25
    → (blank_rows rounds y s).screen o
      ≡ (if leb (160 * y) o && ltb o (160 * (y + rounds)) then blank s.color o else s.screen o)
unfolding blank_rows
screen-blank_rows zero y o s h = ground arith
screen-blank_rows (suc rounds) y o s h =
    let t = blank_row 80 0 y s in
    ground (
      arith,
      screen-blank_rows rounds (y + 1) o t,
      screen-blank_row 80 0 y o s,
      blank_row_frame 80 0 y s,
    )

-- `scrollback(lines)` for 1 to 25 lines of a screen of bytes: the upper rows are those that stood
-- `lines` further down, with their colours, the last `lines` rows are blank in the current colour,
-- nothing outside the screen changes, and the row of the cursor goes up with the text.
pub scrollback_lem :
    (lines o : ℕ) (s : Console)
    → 0 < lines
    → lines ≤ 25
    → IsBytes s.screen
    → let t = scrollback lines s in
      (t.screen o ≡ (
        if ltb o (160 * (25 - lines))
        then s.screen (o + 160 * lines)
        else if ltb o 4000
        then blank s.color o
        else s.screen o))
      × (t.x ≡ s.x)
      × (t.y ≡ s.y - lines)
      × (t.color ≡ s.color)
      × (t.bus ≡ s.bus)
unfolding scrollback
scrollback_lem lines o s pos max bytes =
    let t = copy_rows lines (25 - lines) lines s in
    let shifted =
      copy_rows-Shifted lines s.screen bytes pos (25 - lines) lines s (omega arith) (omega arith)
        (λ q. ground arith) o in
    let same = copy_rows_frame lines (25 - lines) lines s in
    let same' = blank_rows_frame lines (25 - lines) t in
    let blanks = screen-blank_rows lines (25 - lines) o t (omega arith) in
    (
      ground (arith, shifted, blanks, same),
      ground (arith, same, same'),
      ground (arith, same, same'),
      ground (arith, same, same'),
      ground (arith, same, same'),
    )

-- `clrscr` blanks every cell of the screen in the current colour, changes nothing outside the
-- screen, and puts the cursor in the upper left corner.
pub clrscr_lem :
    (o : ℕ) (s : Console)
    → ((clrscr s).screen o ≡ (if ltb o 4000 then blank s.color o else s.screen o))
      × ((clrscr s).x ≡ 0)
      × ((clrscr s).y ≡ 0)
unfolding clrscr setcursor
clrscr_lem o s = (ground (arith, screen-blank_rows 25 0 o s), refl, refl)
