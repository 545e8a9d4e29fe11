-- ===== src/Console/Within.antt =====
-- What holds of the screen whatever the kernel does with it, the arrow keys included: `movecursor`
-- lets the cursor stand behind the last column.
use splongle_os.Base.{
  ℕ, zero, suc, ◌+◌, ◌-◌, ◌%◌, ◌≤◌, ◌<◌, ◌≡◌, arith, Bool-cases, inl, inr, List, [], ◌∷◌, ltb, ◌==◌,
}
use splongle_os.Console.{
  Console, putchr, putcolor, finish, putc_plain, tab_loop, putc, puts, eatc, movecursor, setcursor,
}
use splongle_os.Console.Scroll.{IsBytes}
use splongle_os.Console.Place.{move}
use splongle_os.Console.Cursor.{finish_lem, finish-IsValid, wrap_row}

-- The cursor is on the screen or behind the last column, and memory from byte 4002 on is as in `m`.
pub record IsWithin (m : ℕ → ℕ) (s : Console) : Type 0 where
  pub column : s.x ≤ 80
  pub row : s.y < 25
  pub colored : s.color < 256
  pub bytes : IsBytes s.screen
  pub outside : (o : ℕ) → 4002 ≤ o → s.screen o ≡ m o

module _ (m : ℕ → ℕ) where
  finish-IsWithin :
      (s : Console)
      → wrap_row s ≤ 25
      → s.color < 256
      → IsBytes s.screen
      → ((o : ℕ) → 4002 ≤ o → s.screen o ≡ m o)
      → IsWithin m (finish s)
  finish-IsWithin s h k bytes out =
      let v = finish-IsValid s h k bytes in
      record {
        column = ground (arith, v.column);
        row = v.row;
        colored = v.colored;
        bytes = v.bytes;
        outside = λ o l. ground (arith, finish_lem o s h bytes, out o l);
      }

  putc_plain-IsWithin : (c : ℕ) (s : Console) → IsWithin m s → IsWithin m (putc_plain c s)
  unfolding putc_plain putchr putcolor
  putc_plain-IsWithin c s v = elim (Bool-cases (c == b'\n')) [
    | inl e ↦ rw e (
        finish-IsWithin (record s { x = 0; y = s.y + 1 }) (ground (arith, v.row)) v.colored v.bytes
          v.outside)
    | inr e ↦ elim (Bool-cases (c == b'\r')) [
      | inl f ↦
          rw (e, f)
            (finish-IsWithin (record s { x = 0 }) (ground (arith, v.row)) v.colored v.bytes
              v.outside)
      | inr f ↦
          let t : Console = record (putcolor s.x s.y s.color (putchr s.x s.y c s)) {
            x = s.x + 1;
          } in
          rw (e, f)
            (finish-IsWithin t (ground (arith, v.row, v.column)) v.colored
              (λ q. ground (arith, v.bytes q))
              (λ o l. ground (arith, v.row, v.column, v.outside o l)))
    ]
  ]

  tab_loop-IsWithin : (fuel i : ℕ) (s : Console) → IsWithin m s → IsWithin m (tab_loop fuel i s)
  unfolding tab_loop
  tab_loop-IsWithin zero i s v = v
  tab_loop-IsWithin (suc fuel) i s v = elim (Bool-cases (ltb i (4 - s.x % 4))) [
    | inl e ↦
        rw (e, tab_loop)
          (tab_loop-IsWithin fuel (i + 1) (putc_plain b' ' s) (putc_plain-IsWithin b' ' s v))
    | inr e ↦ rw (e, tab_loop) v
  ]

  pub putc-IsWithin : (c : ℕ) (s : Console) → IsWithin m s → IsWithin m (putc c s)
  unfolding putc
  putc-IsWithin c s v = elim (Bool-cases (c == b'\t')) [
    | inl e ↦
        let t = tab_loop 4 0 s in
        let w = tab_loop-IsWithin 4 0 s v in
        rw e (finish-IsWithin t (ground (arith, w.column, w.row)) w.colored w.bytes w.outside)
    | inr e ↦ rw e (putc_plain-IsWithin c s v)
  ]

  pub puts-IsWithin : (str : List ℕ) (s : Console) → IsWithin m s → IsWithin m (puts str s)
  unfolding puts
  puts-IsWithin [] s v = v
  puts-IsWithin (c ∷ str) s v = puts-IsWithin str (putc c s) (putc-IsWithin c s v)

  pub eatc-IsWithin : (s : Console) → IsWithin m s → IsWithin m (eatc s)
  unfolding eatc putchr setcursor
  eatc-IsWithin s v = record {
    column = ground (arith, v.column);
    row = ground (arith, v.row);
    colored = ground (arith, v.colored);
    bytes = λ o. ground (arith, v.bytes o);
    outside = λ o l. ground (arith, v.row, v.column, v.outside o l);
  }

  pub movecursor-IsWithin :
      (scancode : ℕ) (s : Console) → IsWithin m s → IsWithin m (movecursor scancode s)
  unfolding movecursor setcursor
  movecursor-IsWithin scancode s v = record {
    column = ground (arith, v.column);
    row = ground (arith, v.row);
    colored = ground (arith, v.colored);
    bytes = λ o. ground (arith, v.bytes o);
    outside = λ o l. ground (arith, v.outside o l);
  }

  -- Text at a place of its own, after which the cursor goes back.
  pub move-puts-IsWithin :
      (x y : ℕ) (str : List ℕ) (s : Console)
      → x ≤ 80
      → y < 25
      → IsWithin m s
      → IsWithin m (move s.x s.y (puts str (move x y s)))
  unfolding setcursor
  move-puts-IsWithin x y str s h k v =
      let at : IsWithin m (move x y s) = record {
        column = h;
        row = k;
        colored = v.colored;
        bytes = v.bytes;
        outside = v.outside;
      } in
      let printed = puts-IsWithin str (move x y s) at in
      record {
        column = v.column;
        row = v.row;
        colored = printed.colored;
        bytes = printed.bytes;
        outside = printed.outside;
      }
