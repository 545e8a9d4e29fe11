-- ===== src/Memory/Strings.antt =====
-- `strlen`, and what `strcmp` really compares.
use splongle_os.Base.{
  ℕ, zero, suc, ◌+◌, ◌<◌, ◌≡◌, ◌≢◌, refl, arith, ◌∙◌, ap, Bool, true, false, ◌&&◌, some, List, [],
  ◌∷◌, ◌++◌, length, ◌==◌,
}
use splongle_os.Memory.{Bytes, strlen_loop, strlen, strcmp_loop, strcmp}

-- From index `i` on the text stands, with the 0 that ends it.
abbrev pub IsText : Bytes → ℕ → List ℕ → Type 0
IsText m i [] = m i ≡ 0
IsText m i (c ∷ str) = (m i ≡ c) × (c ≢ 0) × IsText m (i + 1) str

strlen_loop_lem :
    (fuel len : ℕ) (str : List ℕ) (m : Bytes)
    → IsText m len str
    → length str < fuel
    → strlen_loop fuel m len ≡ some (len + length str)
unfolding strlen_loop
strlen_loop_lem zero len str m t h = absurd (omega arith)
strlen_loop_lem (suc fuel) len [] m t h = ground arith
strlen_loop_lem (suc fuel) len (c ∷ str) m t h =
    ground (arith, strlen_loop_lem fuel (len + 1) str m t.2)

-- `strlen` of a text is its length, with fuel above it.
pub strlen_lem :
    (fuel : ℕ) (str : List ℕ) (m : Bytes)
    → IsText m 0 str
    → length str < fuel
    → strlen fuel m ≡ some (length str)
unfolding strlen
strlen_lem fuel str m t h = ground (arith, strlen_loop_lem fuel 0 str m t h)

-- Does the first text begin with the second?
abbrev pub begins_with : List ℕ → List ℕ → Bool
begins_with str [] = true
begins_with [] (d ∷ prefix) = false
begins_with (c ∷ str) (d ∷ prefix) = (c == d) && begins_with str prefix

-- Past the end of a text nothing is read, so the rest of memory does not matter.
strcmp_loop_lem :
    (fuel rounds i : ℕ) (a b : List ℕ) (m n : Bytes)
    → IsText m i a
    → IsText n i b
    → strlen fuel n ≡ some (i + length b)
    → length b < rounds
    → strcmp_loop fuel rounds m n i ≡ some (begins_with a b)
unfolding strcmp_loop
strcmp_loop_lem fuel zero i a b m n ta tb e k = absurd (omega arith)
strcmp_loop_lem fuel (suc rounds) i [] [] m n ta tb e k = rw (e, strcmp_loop) (ground arith)
strcmp_loop_lem fuel (suc rounds) i (c ∷ a) [] m n ta tb e k = rw (e, strcmp_loop) (ground arith)
strcmp_loop_lem fuel (suc rounds) i [] (d ∷ b) m n ta tb e k = rw (e, strcmp_loop) (ground arith)
strcmp_loop_lem fuel (suc rounds) i (c ∷ a) (d ∷ b) m n ta tb e k =
    let shift : i + length (d ∷ b) ≡ i + 1 + length b = omega arith in
    let rest =
      strcmp_loop_lem fuel rounds (i + 1) a b m n ta.2 tb.2 (rw (← shift) e) (omega arith) in
    rw (e, strcmp_loop) (ground (arith, rest))

-- `strcmp` of two texts that end in 0, with fuel above the length of the second: it ends, and is
-- true exactly when the first text begins with the second.
pub strcmp_lem :
    (fuel : ℕ) (a b : List ℕ) (m n : Bytes)
    → IsText m 0 a
    → IsText n 0 b
    → length b < fuel
    → strcmp fuel m n ≡ some (begins_with a b)
unfolding strcmp
strcmp_lem fuel a b m n ta tb h =
    let e : strlen fuel n ≡ some (0 + length b) =
      strlen_lem fuel b n tb h ∙ ap some (omega arith) in
    strcmp_loop_lem fuel fuel 0 a b m n ta tb e h

-- Any text that goes on behind another is equal to it for `strcmp`.
pub begins_with-append : (str rest : List ℕ) → begins_with (str ++ rest) str ≡ true
begins_with-append [] rest = refl
begins_with-append (c ∷ str) rest = ground (arith, begins_with-append str rest)
