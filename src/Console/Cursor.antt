-- ===== src/Console/Cursor.antt =====
-- Where `putc` leaves the cursor and the bytes of the screen.
use splongle_os.Base.{
  ℕ, zero, suc, ◌+◌, ◌-◌, ◌*◌, ◌%◌, ◌≤◌, ◌<◌, min, ◌≡◌, ◌≢◌, arith, false, ◌&&◌, Option, none, some,
  ◌∷◌, Bool-cases, inl, inr, fun_ext, ap, ◌∙◌, ltb, leb, ◌==◌, if◌then◌else◌, u8,
}
use splongle_os.Ports.{Bus, wrote8}
use splongle_os.Console.{Console, putchr, putcolor, setcursor, finish, putc_plain, tab_loop, putc}
use splongle_os.Console.Scroll.{IsBytes, blank, scrollback_lem}

-- The cursor is on the screen.
pub record IsValid (s : Console) : Type 0 where
  pub column : s.x < 80
  pub row : s.y < 25
  pub colored : s.color < 256
  pub bytes : IsBytes s.screen

-- The position that the last four port writes gave to the CRT controller.
abbrev pub hardware_cursor : Bus → Option ℕ
hardware_cursor (wrote8 p hi ∷ wrote8 q h ∷ wrote8 r lo ∷ wrote8 t l ∷ bus) =
    if (p == 0x3D5)
      && ((q == 0x3D4) && ((h == 0x0E) && ((r == 0x3D5) && ((t == 0x3D4) && (l == 0x0F)))))
    then some (hi * 256 + lo)
    else none
hardware_cursor _ = none

-- The position of the cursor, counted in cells from the upper left corner.
abbrev pub position : Console → ℕ
position s = 80 * s.y + s.x

-- The screen after one line has scrolled.
abbrev pub scrolled : ℕ → (ℕ → ℕ) → ℕ → ℕ
scrolled color screen o =
    if ltb o 3840 then screen (o + 160) else if ltb o 4000 then blank color o else screen o

abbrev pub wrap_row : Console → ℕ
wrap_row s = if leb 80 s.x then s.y + 1 else s.y

pub finish_lem :
    (o : ℕ) (s : Console)
    → wrap_row s ≤ 25
    → IsBytes s.screen
    → ((finish s).screen o
        ≡ (if leb 25 (wrap_row s) then scrolled s.color s.screen o else s.screen o))
      × ((finish s).x ≡ (if leb 80 s.x then 0 else s.x))
      × ((finish s).y ≡ (if leb 25 (wrap_row s) then 24 else wrap_row s))
      × ((finish s).color ≡ s.color)
unfolding finish setcursor
finish_lem o s h bytes =
    let wrapped : Console = record s { y = s.y + 1; x = 0 } in
    let a = scrollback_lem 1 o wrapped (omega arith) (omega arith) bytes in
    let b = scrollback_lem 1 o s (omega arith) (omega arith) bytes in
    (ground (arith, a, b), ground (arith, a, b), ground (arith, a, b), ground (arith, a, b))

-- On the screen already, `finish` leaves the position alone.
pub finish_position : (s : Console) → IsValid s → ((finish s).x ≡ s.x) × ((finish s).y ≡ s.y)
finish_position s v =
    let at = finish_lem 0 s (ground (arith, v.column, v.row)) v.bytes in
    (ground (arith, at, v.column), ground (arith, at, v.column, v.row))

finish_cursor :
    (s : Console)
    → wrap_row s ≤ 25
    → IsBytes s.screen
    → hardware_cursor (finish s).bus ≡ some (position (finish s))
unfolding finish setcursor
finish_cursor s h bytes =
    let wrapped : Console = record s { y = s.y + 1; x = 0 } in
    let a = scrollback_lem 1 0 wrapped (omega arith) (omega arith) bytes in
    let b = scrollback_lem 1 0 s (omega arith) (omega arith) bytes in ground (arith, a, b)

pub finish-IsValid :
    (s : Console) → wrap_row s ≤ 25 → s.color < 256 → IsBytes s.screen → IsValid (finish s)
finish-IsValid s h k bytes = record {
  column = ground (arith, finish_lem 0 s h bytes);
  row = ground (arith, finish_lem 0 s h bytes);
  colored = ground (arith, finish_lem 0 s h bytes);
  bytes = λ o. ground (arith, finish_lem o s h bytes, bytes o, bytes (o + 160));
}

-- `putc` of a character that is neither a newline nor a carriage return nor a tab.
abbrev pub IsPlain : ℕ → Type 0
IsPlain c = (c ≢ b'\n') × (c ≢ b'\r') × (c ≢ b'\t')

-- The screen with one character more.
abbrev pub written : Console → ℕ → ℕ → ℕ
written s c o =
    if o == 2 * position s then u8 c else if o == 2 * position s + 1 then u8 s.color else s.screen o

screen-putchr :
    (c : ℕ) (s : Console)
    → IsValid s
    → (putcolor s.x s.y s.color (putchr s.x s.y c s)).screen ≡ written s c
unfolding putchr putcolor
screen-putchr c s v = fun_ext λ o. ground (arith, v.column, v.row)

-- The state in which `putc` reaches `finish`.
abbrev printed : ℕ → Console → Console
printed c s = record s { screen = written s c; x = s.x + 1 }

putc_plain-finish :
    (c : ℕ) (s : Console)
    → IsValid s
    → c ≢ b'\n'
    → c ≢ b'\r'
    → putc_plain c s ≡ finish (printed c s)
unfolding putc_plain putchr putcolor
putc_plain-finish c s v n r =
    let not_newline : (c == b'\n') ≡ false = ground arith in
    let not_return : (c == b'\r') ≡ false = ground arith in
    rw (not_newline, not_return)
      (ap (λ (m : ℕ → ℕ). finish (record s { screen = m; x = s.x + 1 })) (screen-putchr c s v))

last_cell :
    {x y : ℕ}
    → x < 80
    → y < 25
    → leb 25 (if leb 80 (x + 1) then y + 1 else y) ≡ (80 * y + x == 1999)
last_cell h k = ground arith

pub putc_plain_lem :
    (c o : ℕ) (s : Console)
    → IsValid s
    → c ≢ b'\n'
    → c ≢ b'\r'
    → ((putc_plain c s).screen o
        ≡ (if position s == 1999 then scrolled s.color (written s c) o else written s c o))
      × ((putc_plain c s).x ≡ (if s.x == 79 then 0 else s.x + 1))
      × ((putc_plain c s).y ≡ (if s.x == 79 then min (s.y + 1) 24 else s.y))
      × ((putc_plain c s).color ≡ s.color)
putc_plain_lem c o s v n r =
    let at =
      finish_lem o (printed c s) (ground (arith, v.column, v.row))
        (λ q. ground (arith, v.bytes q)) in
    rw (putc_plain-finish c s v n r) (
      at.0
          ∙ ap (λ b. if b then scrolled s.color (written s c) o else written s c o)
              (last_cell (v.column) (v.row)),
      ground (arith, at, v.column, v.row),
      ground (arith, at, v.column, v.row),
      ground (arith, at),
    )

pub newline_lem :
    (o : ℕ) (s : Console)
    → IsValid s
    → ((putc_plain b'\n' s).screen o
        ≡ (if s.y == 24 then scrolled s.color s.screen o else s.screen o))
      × ((putc_plain b'\n' s).x ≡ 0)
      × ((putc_plain b'\n' s).y ≡ min (s.y + 1) 24)
unfolding putc_plain
newline_lem o s v =
    let t : Console = record s { x = 0; y = s.y + 1 } in
    let at = finish_lem o t (omega arith) v.bytes in
    (ground (arith, at), ground (arith, at), ground (arith, at))

pub putc_plain-IsValid : (c : ℕ) (s : Console) → IsValid s → IsValid (putc_plain c s)
unfolding putc_plain putchr putcolor
putc_plain-IsValid c s v = elim (Bool-cases (c == b'\n')) [
  | inl e ↦ rw e (finish-IsValid (record s { x = 0; y = s.y + 1 }) (omega arith) v.colored v.bytes)
  | inr e ↦ elim (Bool-cases (c == b'\r')) [
    | inl f ↦ rw (e, f) (finish-IsValid (record s { x = 0 }) (omega arith) v.colored v.bytes)
    | inr f ↦
        let t : Console = record (putcolor s.x s.y s.color (putchr s.x s.y c s)) { x = s.x + 1 } in
        rw (e, f) (finish-IsValid t (ground arith) v.colored (λ q. ground (arith, v.bytes q)))
  ]
]

putc_plain_cursor :
    (c : ℕ) (s : Console)
    → IsValid s
    → hardware_cursor (putc_plain c s).bus ≡ some (position (putc_plain c s))
unfolding putc_plain putchr putcolor
putc_plain_cursor c s v = elim (Bool-cases (c == b'\n')) [
  | inl e ↦ rw e (finish_cursor (record s { x = 0; y = s.y + 1 }) (omega arith) v.bytes)
  | inr e ↦ elim (Bool-cases (c == b'\r')) [
    | inl f ↦ rw (e, f) (finish_cursor (record s { x = 0 }) (omega arith) v.bytes)
    | inr f ↦
        let t : Console = record (putcolor s.x s.y s.color (putchr s.x s.y c s)) { x = s.x + 1 } in
        rw (e, f) (finish_cursor t (ground arith) (λ q. ground (arith, v.bytes q)))
  ]
]

tab_loop-IsValid : (fuel i : ℕ) (s : Console) → IsValid s → IsValid (tab_loop fuel i s)
unfolding tab_loop
tab_loop-IsValid zero i s v = v
tab_loop-IsValid (suc fuel) i s v = elim (Bool-cases (ltb i (4 - s.x % 4))) [
  | inl e ↦
      rw (e, tab_loop)
        (tab_loop-IsValid fuel (i + 1) (putc_plain b' ' s) (putc_plain-IsValid b' ' s v))
  | inr e ↦ rw (e, tab_loop) v
]

-- `putc` of any character, the cursor being on the screen: the cursor stays on the screen, and the
-- last writes to the CRT controller tell it that position.
pub putc-IsValid :
    (c : ℕ) (s : Console)
    → IsValid s
    → IsValid (putc c s) × (hardware_cursor (putc c s).bus ≡ some (position (putc c s)))
unfolding putc
putc-IsValid c s v = elim (Bool-cases (c == b'\t')) [
  | inl e ↦
      let t = tab_loop 4 0 s in
      let w = tab_loop-IsValid 4 0 s v in
      rw e (
        finish-IsValid t (ground (arith, w.column, w.row)) w.colored w.bytes,
        finish_cursor t (ground (arith, w.column, w.row)) w.bytes,
      )
  | inr e ↦ rw e (putc_plain-IsValid c s v, putc_plain_cursor c s v)
]
