-- ===== src/Rtc/DateText.antt =====
-- The text that `print_datetime` prints, its length and its characters.
use splongle_os.Base.{
  ℕ, suc, ◌+◌, ◌≤◌, ◌<◌, arith, Bool-cases, inl, inr, List, ◌∷◌, ◌++◌, leb, length, length-append,
}
use splongle_os.Console.Text.{AllPlain}
use splongle_os.Printk.Decimal.{
  decimal, two_digits, decimal-AllPlain, AllPlain-append, length-decimal,
}
use splongle_os.Rtc.{DateTime}

-- The text of a date and time with the text of its seconds.
abbrev pub date_text : List ℕ → DateTime → List ℕ
date_text second t =
    decimal t.day
    ++ (b'-'
        ∷ (decimal t.month
            ++ (b'-'
                ∷ (decimal t.year
                    ++ (b' '
                        ∷ (decimal t.hour ++ (b':' ∷ (decimal t.minute ++ (b':' ∷ second)))))))))

-- Numbers of two digits, and a year of four.
pub record IsDate (t : DateTime) : Type 0 where
  pub second : t.second < 100
  pub minute : t.minute < 100
  pub hour : t.hour < 100
  pub day : t.day < 100
  pub month : t.month < 100
  pub year : t.year < 10000

pub date_text-AllPlain :
    (second : List ℕ) (t : DateTime) → AllPlain second → AllPlain (date_text second t)
date_text-AllPlain second t h =
    let sep : (c : ℕ) (str : List ℕ) → 32 ≤ c → AllPlain str → AllPlain (c ∷ str) =
      λ c str k plain. (omega arith, plain) in
    AllPlain-append _ _ (decimal-AllPlain t.day) (
      sep b'-' _ (omega arith) (
        AllPlain-append _ _ (decimal-AllPlain t.month) (
          sep b'-' _ (omega arith) (
            AllPlain-append _ _ (decimal-AllPlain t.year) (
              sep b' ' _ (omega arith) (
                AllPlain-append _ _ (decimal-AllPlain t.hour) (
                  sep b':' _ (omega arith) (
                    AllPlain-append _ _ (decimal-AllPlain t.minute)
                      (sep b':' _ (omega arith) h)))))))))

length-append-le :
    (a b : List ℕ) (c k m : ℕ) → length a ≤ k → length b ≤ m → length (a ++ (c ∷ b)) ≤ k + suc m
length-append-le a b c k m h l = omega (arith, length-append a (c ∷ b), h, l)

pub length-date_text :
    (second : List ℕ) (t : DateTime)
    → IsDate t
    → length second ≤ 2
    → length (date_text second t) ≤ 19
length-date_text second t d h =
    let minute = length-append-le _ second b':' 2 2 (length-decimal t.minute 1 d.minute) h in
    let hour = length-append-le _ _ b':' 2 5 (length-decimal t.hour 1 d.hour) minute in
    let year = length-append-le _ _ b' ' 4 8 (length-decimal t.year 3 d.year) hour in
    let month = length-append-le _ _ b'-' 2 13 (length-decimal t.month 1 d.month) year in
    length-append-le _ _ b'-' 2 16 (length-decimal t.day 1 d.day) month

pub length-two_digits : (n : ℕ) → n < 100 → length (two_digits n) ≤ 2
length-two_digits n h = elim (Bool-cases (leb 10 n)) [
  | inl e ↦ rw e (length-decimal n 1 h)
  | inr e ↦ let small : n < 10 = ground arith in rw e (omega (arith, length-decimal n 0 small))
]

pub two_digits-AllPlain : (n : ℕ) → AllPlain (two_digits n)
two_digits-AllPlain n = elim (Bool-cases (leb 10 n)) [
  | inl e ↦ rw e (decimal-AllPlain n)
  | inr e ↦ rw e (omega arith, decimal-AllPlain n)
]
