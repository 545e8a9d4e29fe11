-- ===== src/Rtc/Display.antt =====
-- What `print_datetime` and `blank_datetime` change.
use splongle_os.Base.{
  codes, ℕ, ◌≤◌, ◌≡◌, ◌≢◌, refl, arith, Bool-cases, inl, inr, true, append-nil, ◌∙◌, ap, Bool,
  false, some, List, [], ◌∷◌, leb, length,
}
use splongle_os.Console.{Console, puts}
use splongle_os.Console.Cursor.{IsValid}
use splongle_os.Console.Place.{move, IsShown, move-puts}
use splongle_os.Printk.Decimal.{decimal, two_digits, number_text-extend}
use splongle_os.Printk.{default, printk}
use splongle_os.Printk.Format.{Piece, IsPiece, char, conversion, AllPieces}
use splongle_os.Printk.Render.{render, shown, printk-render, printk-IsText}
use splongle_os.Rtc.{DateTime, print_datetime, blank_datetime, show}
use splongle_os.Rtc.DateText.{
  IsDate, date_text, date_text-AllPlain, length-date_text, length-two_digits, two_digits-AllPlain,
}

-- `"%d-%d-%d %d:%d:%d"`, with `last` behind its last colon.
abbrev date_pieces : List Piece → List Piece
date_pieces last =
    conversion default b'd'
    ∷ char b'-'
    ∷ conversion default b'd'
    ∷ char b'-'
    ∷ conversion default b'd'
    ∷ char b' '
    ∷ conversion default b'd'
    ∷ char b':'
    ∷ conversion default b'd'
    ∷ char b':'
    ∷ last

abbrev number : Piece
number = conversion default b'd'

abbrev date_args : DateTime → List ℕ
date_args t = t.day ∷ t.month ∷ t.year ∷ t.hour ∷ t.minute ∷ t.second ∷ []

number-IsPiece : IsPiece number
number-IsPiece = (omega arith, omega arith)

date_pieces-AllPieces : (last : List Piece) → AllPieces last → AllPieces (date_pieces last)
date_pieces-AllPieces last h =
    let d = number-IsPiece in
    let plain : (c : ℕ) → c ≢ b'%' → IsPiece (char c) = λ c ne. ne in
    (
      d,
      (
        plain b'-' (omega arith),
        (
          d,
          (
            plain b'-' (omega arith),
            (
              d,
              (
                plain b' ' (omega arith),
                (d, (plain b':' (omega arith), (d, (plain b':' (omega arith), h)))),
              ),
            ),
          ),
        ),
      ),
    )

render-date :
    (t : DateTime)
    → IsDate t
    → (render (λ a. []) (date_pieces (number ∷ [])) (date_args t)
        ≡ some (date_text (decimal t.second) t))
      × (render (λ a. []) (date_pieces (char b'0' ∷ number ∷ [])) (date_args t)
          ≡ some (date_text (b'0' ∷ decimal t.second) t))
render-date t d =
    let day = number_text-extend t.day (omega (arith, d.day)) in
    let month = number_text-extend t.month (omega (arith, d.month)) in
    let year = number_text-extend t.year (omega (arith, d.year)) in
    let hour = number_text-extend t.hour (omega (arith, d.hour)) in
    let minute = number_text-extend t.minute (omega (arith, d.minute)) in
    let second = number_text-extend t.second (omega (arith, d.second)) in
    let last = append-nil (decimal t.second) in
    (
      rw (day, month, year, hour, minute, second) (ap (λ x. some (date_text x t)) last),
      rw (day, month, year, hour, minute, second) (ap (λ x. some (date_text (b'0' ∷ x) t)) last),
    )

print_datetime-puts :
    (t : DateTime) (s : Console)
    → IsDate t
    → print_datetime t s
      ≡ some (move s.x s.y (puts (date_text (two_digits t.second) t) (move 60 23 s)))
unfolding print_datetime
print_datetime-puts t s d =
    let here = move 60 23 s in
    let (long, short) = render-date t d in
    let last_long : AllPieces (number ∷ []) = (number-IsPiece, tt) in
    let last_short : AllPieces (char b'0' ∷ number ∷ []) = (omega arith, last_long) in
    let printed_long =
      printk-render (λ a. []) (date_pieces (number ∷ [])) (date_args t) here
        (date_pieces-AllPieces (number ∷ []) last_long)
      ∙ ap (shown here) long in
    let printed_short =
      printk-render (λ a. []) (date_pieces (char b'0' ∷ number ∷ [])) (date_args t) here
        (date_pieces-AllPieces (char b'0' ∷ number ∷ []) last_short)
      ∙ ap (shown here) short in
    elim (Bool-cases (leb 10 t.second)) [
      | inl e ↦ rw (e, printed_long) refl
      | inr e ↦ rw (e, printed_short) refl
    ]

-- `print_datetime`, the cursor being on the screen, of a date and time of two-digit numbers and a
-- year of four digits: the text, of at most 19 characters, with the seconds alone filled up with a
-- zero, stands in row 23 from column 60 on, no other cell changes, those behind the text included,
-- and the cursor is where it was, on the screen and in the CRT controller.
pub print_datetime-IsShown :
    (t : DateTime) (s : Console)
    → IsDate t
    → IsValid s
    → (u : Console) × (print_datetime t s ≡ some u)
      × IsShown s u 1900 (date_text (two_digits t.second) t)
      × (length (date_text (two_digits t.second) t) ≤ 19)
print_datetime-IsShown t s d v =
    let str = date_text (two_digits t.second) t in
    let short = length-date_text (two_digits t.second) t d (length-two_digits t.second d.second) in
    let plain = date_text-AllPlain (two_digits t.second) t (two_digits-AllPlain t.second) in
    (
      move s.x s.y (puts str (move 60 23 s)),
      print_datetime-puts t s d,
      move-puts 60 23 str s v (omega arith) (omega arith) plain (omega (arith, short)),
      short,
    )

-- `blank_datetime`, the cursor being on the screen: the 20 cells at the end of row 23 are blank, no
-- other cell changes, and the cursor is where it was.
pub blank_datetime-IsShown :
    (s : Console)
    → IsValid s
    → (u : Console) × (blank_datetime s ≡ some u) × IsShown s u 1900 (codes "                    ")
unfolding blank_datetime
blank_datetime-IsShown s v =
    let blanks = codes "                    " in
    let here = move 60 23 s in
    (
      move s.x s.y (puts blanks here),
      rw (printk-IsText (λ a. []) blanks [] here (omega arith)) refl,
      move-puts 60 23 blanks s v (omega arith) (omega arith) (omega arith) (omega arith),
    )

-- Both print some text there for any date, since `printk` is passed what it reads.
pub show-puts :
    (shown : Bool) (t : DateTime) (s : Console)
    → (str : List ℕ) × (show shown t s ≡ some (move s.x s.y (puts str (move 60 23 s))))
unfolding show print_datetime blank_datetime
show-puts false t s =
    let here = move 60 23 s in
    let blanks = codes "                    " in
    (blanks, rw (printk-IsText (λ a. []) blanks [] here (omega arith)) refl)
show-puts true t s =
    let here = move 60 23 s in
    let args = date_args t in
    let last_long : AllPieces (number ∷ []) = (number-IsPiece, tt) in
    let last_short : AllPieces (char b'0' ∷ number ∷ []) = (omega arith, last_long) in
    let long : (str : List ℕ) × (printk (λ a. []) (codes "%d-%d-%d %d:%d:%d") args here
          ≡ some (puts str here)) =
      (
        _,
        printk-render (λ a. []) (date_pieces (number ∷ [])) args here
            (date_pieces-AllPieces (number ∷ []) last_long),
      ) in
    let short : (str : List ℕ) × (printk (λ a. []) (codes "%d-%d-%d %d:%d:0%d") args here
          ≡ some (puts str here)) =
      (
        _,
        printk-render (λ a. []) (date_pieces (char b'0' ∷ number ∷ [])) args here
            (date_pieces-AllPieces (char b'0' ∷ number ∷ []) last_short),
      ) in
    elim (Bool-cases (leb 10 t.second)) [
      | inl e ↦ (long.0, rw (e, long.1) refl)
      | inr e ↦ (short.0, rw (e, short.1) refl)
    ]

pub show-some :
    (shown : Bool) (t : DateTime) (s : Console) → (u : Console) × (show shown t s ≡ some u)
show-some shown t s = (_, (show-puts shown t s).1)
