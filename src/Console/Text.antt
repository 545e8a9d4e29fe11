-- ===== src/Console/Text.antt =====
-- Strings, tabs and deletions on the screen.
use splongle_os.Base.{
  ℕ, zero, suc, ◌+◌, ◌-◌, ◌*◌, ◌/◌, ◌%◌, ◌≤◌, ◌<◌, ◌≡◌, refl, arith, false, ◌&&◌, List, [], ◌∷◌,
  ◌++◌, ltb, leb, ◌==◌, if◌then◌else◌, u8, ◌∙◌, length, get_or,
}
use splongle_os.Console.{Console, putchr, setcursor, putc_plain, tab_loop, putc, puts, eatc}
use splongle_os.Console.Cursor.{
  IsValid, IsPlain, position, written, putc_plain_lem, putc_plain-IsValid, finish_position,
}

-- Every character of the string is printed as it is.
abbrev pub AllPlain : List ℕ → Type 0
AllPlain [] = Unit {0}
AllPlain (c ∷ str) = IsPlain c × AllPlain str

get_or-cons :
    (c : ℕ) (str : List ℕ) (i d : ℕ)
    → get_or (c ∷ str) i d ≡ (if i == 0 then c else get_or str (i - 1) d)
get_or-cons c str zero d = refl
get_or-cons c str (suc i) d = let e : suc i - 1 ≡ i = omega arith in rw e (ground arith)

puts-cons :
    (c : ℕ) (str : List ℕ) (s : Console) → IsPlain c → puts (c ∷ str) s ≡ puts str (putc_plain c s)
unfolding puts putc
puts-cons c str s plain =
    let not_tab : (c == b'\t') ≡ false = ground (arith, plain.2) in rw (not_tab, puts)

-- A character and then the string behind it are the longer string.
puts_step :
    (c : ℕ) (str : List ℕ) (p o color old : ℕ)
    → color < 256
    → (if leb (2 * (p + 1)) o && ltb o (2 * (p + 1 + length str))
        then if o % 2 == 0 then u8 (get_or str (o / 2 - (p + 1)) 0) else color
        else if o == 2 * p
        then u8 c
        else if o == 2 * p + 1
        then u8 color
        else old)
      ≡ (if leb (2 * p) o && ltb o (2 * (p + suc (length str)))
          then if o % 2 == 0 then u8 (get_or (c ∷ str) (o / 2 - p) 0) else color
          else old)
puts_step c str p o color old h =
    let index : o / 2 - p - 1 ≡ o / 2 - (p + 1) = omega arith in
    rw (get_or-cons c str (o / 2 - p) 0, index) (ground arith)

-- `puts` of a string without newline, return and tab that ends before the last cell of the screen:
-- the characters stand one behind the other from the cursor on, in the current colour, nothing
-- else changes, and the cursor stands behind them.
pub puts_lem :
    (str : List ℕ) (o : ℕ) (s : Console)
    → IsValid s
    → AllPlain str
    → position s + length str < 2000
    → let t = puts str s in
      (t.screen o ≡ (
        if leb (2 * position s) o && ltb o (2 * (position s + length str))
        then if o % 2 == 0 then u8 (get_or str (o / 2 - position s) 0) else s.color
        else s.screen o))
      × (position t ≡ position s + length str)
      × (t.color ≡ s.color)
unfolding puts putc_plain
puts_lem [] o s v plain h = (ground arith, omega arith, refl)
puts_lem (c ∷ str) o s v plain h =
    let t = putc_plain c s in
    let at = putc_plain_lem c o s v plain.0.0 plain.0.1 in
    let here : position t ≡ position s + 1 = ground (arith, at, v.column, v.row) in
    let bound : position t + length str < 2000 = omega (arith, here) in
    let rest = puts_lem str o t (putc_plain-IsValid c s v) plain.1 bound in
    let not_last : (position s == 1999) ≡ false = ground arith in
    let drawn = rw not_last at at.0 in
    rw (puts-cons c str s plain.0) (
      (rw (here, drawn, at.3) at rest.0)
          ∙ puts_step c str (position s) o s.color (s.screen o) v.colored,
      omega (arith, rest.1, here),
      rest.2 ∙ at.3,
    )

pub puts_nothing : (s : Console) → puts [] s ≡ s
unfolding puts
puts_nothing s = refl

pub puts_next : (c : ℕ) (str : List ℕ) (s : Console) → puts (c ∷ str) s ≡ puts str (putc c s)
unfolding puts
puts_next c str s = refl

pub puts-append : (a b : List ℕ) (s : Console) → puts (a ++ b) s ≡ puts b (puts a s)
unfolding puts
puts-append [] b s = refl
puts-append (c ∷ a) b s = puts-append a b (putc c s)

space_lem :
    (s : Console)
    → IsValid s
    → s.x < 79
    → ((putc_plain b' ' s).x ≡ s.x + 1)
      × ((putc_plain b' ' s).y ≡ s.y)
      × IsValid (putc_plain b' ' s)
space_lem s v h =
    let at = putc_plain_lem b' ' 0 s v (omega arith) (omega arith) in
    (ground (arith, at), ground (arith, at), putc_plain-IsValid b' ' s v)

-- A tab never takes the cursor to a tab stop: from a multiple of four or the column behind it the
-- cursor goes on by two, from the next column by one, and from the last one by three.
pub tab_lem :
    (s : Console)
    → IsValid s
    → s.x ≤ 76
    → ((putc b'\t' s).x ≡ s.x + (if s.x % 4 == 2 then 1 else if s.x % 4 == 3 then 3 else 2))
      × ((putc b'\t' s).y ≡ s.y)
unfolding putc tab_loop
tab_lem s v h =
    let one = space_lem s v (omega arith) in
    let s1 = putc_plain b' ' s in
    let two = space_lem s1 one.2 (omega (arith, one)) in
    let s2 = putc_plain b' ' s1 in
    let three = space_lem s2 two.2 (omega (arith, one, two)) in
    let s3 = putc_plain b' ' s2 in
    let a = finish_position s1 one.2 in
    let b = finish_position s2 two.2 in
    let c = finish_position s3 three.2 in
    (
      ground (arith, one.0, two.0, three.0, a.0, b.0, c.0),
      ground (arith, one.0, two.0, three.0, one.1, two.1, three.1, a.1, b.1, c.1),
    )

-- `eatc` behind `putc` of a character other than newline, return and tab, before the last column:
-- the cursor is where it was, and the screen is as after `putc`, but for a blank in the cell of
-- the character.
pub eatc-putc :
    (c o : ℕ) (s : Console)
    → IsValid s
    → IsPlain c
    → s.x < 79
    → let t = eatc (putc c s) in
      (t.x ≡ s.x)
      × (t.y ≡ s.y)
      × (t.screen o ≡ (if o == 2 * position s then b' ' else written s c o))
unfolding eatc putc putchr setcursor
eatc-putc c o s v plain h =
    let at = putc_plain_lem c o s v plain.0 plain.1 in
    (ground (arith, at, v.row), ground (arith, at, v.row), ground (arith, at, v.row))

-- A fault of `eatc` at the start of a row other than the first: the cell that it blanks is the one
-- under the cursor, not the last one of the row above, and the cursor is left in column 80, which
-- is not on the screen.
pub eatc_row_start :
    (o : ℕ) (s : Console)
    → IsValid s
    → s.x ≡ 0
    → 0 < s.y
    → ((eatc s).screen o ≡ (if o == 2 * position s then b' ' else s.screen o))
      × ((eatc s).x ≡ 80)
      × ((eatc s).y ≡ s.y - 1)
unfolding eatc putchr setcursor
eatc_row_start o s v e h = (ground (arith, v.row), ground arith, ground arith)
