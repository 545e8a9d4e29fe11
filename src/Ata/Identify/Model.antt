-- ===== src/Ata/Identify/Model.antt =====
-- The model of the disk that `ATA_Identify` prints.
use splongle_os.Base.{
  ℕ, zero, suc, ◌+◌, ◌≤◌, ◌<◌, ◌≡◌, ◌≢◌, refl, arith, ◌∙◌, ap, Bool, true, ◌&&◌, Bool-cases, inl,
  inr, List, [], ◌∷◌, ltb, ◌==◌, if◌then◌else◌, get_or, set, length, length-set, all_below,
}
use splongle_os.Ata.Identify.{trim}

get_or-set_ne : (xs : List ℕ) (i j v : ℕ) → i ≢ j → get_or (set xs i v) j 0 ≡ get_or xs j 0
get_or-set_ne [] i j v h = refl
get_or-set_ne (x ∷ xs) zero zero v h = absurd (h refl)
get_or-set_ne (x ∷ xs) zero (suc j) v h = refl
get_or-set_ne (x ∷ xs) (suc i) zero v h = refl
get_or-set_ne (x ∷ xs) (suc i) (suc j) v h = get_or-set_ne xs i j v (λ e. h (ap suc e))

get_or-set_self : (xs : List ℕ) (i v : ℕ) → i < length xs → get_or (set xs i v) i 0 ≡ v
get_or-set_self [] i v h = absurd (omega arith)
get_or-set_self (x ∷ xs) zero v h = refl
get_or-set_self (x ∷ xs) (suc i) v h = get_or-set_self xs i v (omega arith)

all_below-same :
    (n : ℕ) (p q : ℕ → Bool) → ((k : ℕ) → k < n → p k ≡ q k) → all_below n p ≡ all_below n q
unfolding all_below
all_below-same zero p q h = refl
all_below-same (suc n) p q h =
    let rest = all_below-same n p q (λ k l. h k (omega arith)) in
    let first = h n (omega arith) in rw (first, rest) refl

-- `trim` changes nothing from the character `n` on.
trim-above : (n j : ℕ) (model : List ℕ) → n ≤ j → get_or (trim n model) j 0 ≡ get_or model j 0
unfolding trim
trim-above zero j model h = refl
trim-above (suc n) j model h = elim (Bool-cases (get_or model n 0 == b' ')) [
  | inl e ↦
      rw e (
        trim-above n j (set model n 0) (omega arith) ∙ get_or-set_ne model n j 0 (omega (arith, h)))
  | inr e ↦ rw e refl
]

-- One more space at the end.
trim_more :
    (n r j : ℕ) (model : List ℕ)
    → n ≡ j + r
    → n < length model
    → get_or (trim n (set model n 0)) j 0 ≡ (
        if ltb 0 r && all_below r (λ k. get_or (set model n 0) (j + k) 0 == b' ')
        then 0
        else get_or (set model n 0) j 0)
    → get_or (trim n (set model n 0)) j 0
      ≡ (if all_below r (λ k. get_or model (j + k) 0 == b' ') then 0 else get_or model j 0)
unfolding all_below
trim_more n zero j model e h rest =
    let here : get_or (set model n 0) j 0 ≡ get_or (set model n 0) n 0 =
      ap (λ (k : ℕ). get_or (set model n 0) k 0) (omega (arith, e)) in
    rest ∙ here ∙ get_or-set_self model n 0 h
trim_more n (suc r) j model e h rest =
    let shorter = set model n 0 in
    let same =
      all_below-same (suc r) (λ k. get_or shorter (j + k) 0 == b' ')
        (λ k. get_or model (j + k) 0 == b' ')
        (λ k l. ap (λ (x : ℕ). x == b' ') (get_or-set_ne model n (j + k) 0 (omega arith))) in
    let kept = get_or-set_ne model n j 0 (omega arith) in
    let positive : ltb 0 (suc r) ≡ true = ground arith in rest ∙ rw (positive, same, kept) refl

-- A character of the trimmed model is as before, unless it and the `r` characters from it to the end
-- are spaces: then it is zero.
pub trim_lem :
    (n r j : ℕ) (model : List ℕ)
    → n ≡ j + r
    → n ≤ length model
    → get_or (trim n model) j 0 ≡ (
        if ltb 0 r && all_below r (λ k. get_or model (j + k) 0 == b' ')
        then 0
        else get_or model j 0)
unfolding trim all_below
trim_lem n zero j model e h = trim-above n j model (omega arith)
trim_lem zero (suc r) j model e h = absurd (omega arith)
trim_lem (suc n) (suc r) j model e h =
    let place : j + r ≡ n = omega arith in
    elim (Bool-cases (get_or model n 0 == b' ')) [
      | inr c ↦ rw (place, c) (ground arith)
      | inl c ↦
          let positive : ltb 0 (suc r) ≡ true = ground arith in
          rw (place, c, positive)
            (trim_more n r j model (omega arith) (omega arith) (
              trim_lem n r j (set model n 0) (omega arith)
                (omega (arith, length-set model n 0, h))))
    ]
