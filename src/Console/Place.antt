-- ===== src/Console/Place.antt =====
-- Text at a place of its own, after which the cursor goes back: what `print_datetime`,
-- `blank_datetime` and `print_mem` do around their `printk`.
use splongle_os.Base.{
  ℕ, ◌+◌, ◌*◌, ◌/◌, ◌%◌, ◌-◌, ◌<◌, ◌≡◌, arith, Option, some, ◌>>=◌, List, ◌&&◌, ltb, leb, ◌==◌,
  if◌then◌else◌, u8, length, get_or, refl,
}
use splongle_os.Console.{Console, get_x, get_y, set_x, set_y, setcursor, puts}
use splongle_os.Console.Cursor.{IsValid, position, hardware_cursor}
use splongle_os.Console.Text.{AllPlain, puts_lem}

abbrev pub move : ℕ → ℕ → Console → Console
move x y s = setcursor x y (set_y y (set_x x s))

abbrev pub at_place : ℕ → ℕ → (Console → Option Console) → Console → Option Console
at_place x y print s = do t ← print (move x y s); some (move (get_x s) (get_y s) t)

-- What is left of the screen `s` and of the cursor when `str` is printed from the cell `from` on.
pub record IsShown (s t : Console) (from : ℕ) (str : List ℕ) : Type 0 where
  pub column : t.x ≡ s.x
  pub row : t.y ≡ s.y
  pub color : t.color ≡ s.color
  pub cursor : hardware_cursor t.bus ≡ some (position s)
  pub cells :
      (o : ℕ)
      → t.screen o ≡ (
          if leb (2 * from) o && ltb o (2 * (from + length str))
          then if o % 2 == 0 then u8 (get_or str (o / 2 - from) 0) else s.color
          else s.screen o)

pub move-puts :
    (x y : ℕ) (str : List ℕ) (s : Console)
    → IsValid s
    → x < 80
    → y < 25
    → AllPlain str
    → 80 * y + x + length str < 2000
    → IsShown s (move s.x s.y (puts str (move x y s))) (80 * y + x) str
unfolding setcursor
move-puts x y str s v h k plain fits =
    let from : IsValid (move x y s) = record {
      column = h;
      row = k;
      colored = v.colored;
      bytes = v.bytes;
    } in
    let at = λ (o : ℕ). puts_lem str o (move x y s) from plain fits in
    record {
      column = refl;
      row = refl;
      color = (at 0).2;
      cursor = ground (arith, v.column, v.row);
      cells = λ o. (at o).0;
    }
