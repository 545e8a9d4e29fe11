-- ===== src/Pmm/Search.antt =====
-- `find_first_free_block`: what it finds is free, and what it misses.
use splongle_os.Base.{
  ℕ, zero, suc, ◌+◌, ◌*◌, ◌/◌, ◌%◌, ◌^◌, ◌≤◌, ◌<◌, ◌≡◌, ◌≢◌, refl, arith, true, false, not, none,
  some, inl, inr, Bool-cases, Option-cases, ◌==◌, bit_and, ◌<<◌, u32,
}
use native.Mathlib.Nat.{pow-suc, add-zero}
use native.Mathlib.Decide.{dec_lt}
use splongle_os.Base.{ap}
use splongle_os.Base.Bits.{two_pow-le}
use splongle_os.Pmm.{
  Pmm, four_gib, index_mmap, check_block, scan_run, scan_bits, scan_words, find_first_free_block,
}

-- The test of the middle loop, on a word and one of its bits, is `check_block` of that block.
scan_bits_test :
    (i j : ℕ) (p : Pmm)
    → j < 32
    → (bit_and (p.memory_map i) (1 << j) == 0) ≡ not (check_block (i * 32 + j) p)
unfolding check_block
scan_bits_test i j p h =
    let word : (i * 32 + j) / 32 ≡ i = omega arith in
    let place : (i * 32 + j) % 32 ≡ j = omega arith in rw (word, place) (ground arith)

-- What the middle loop returns is a free block of its word.
scan_bits-free :
    (p : Pmm) (n i rounds j b : ℕ)
    → j + rounds ≤ 32
    → i < 2 ^ 27
    → scan_bits p n i rounds j ≡ some b
    → (i * 32 ≤ b) × (b < i * 32 + 32) × (check_block b p ≡ false)
unfolding scan_bits
scan_bits-free p n i zero j b h k e = cc
scan_bits-free p n i (suc rounds) j b h k e =
    ground (arith, scan_bits_test i j p, scan_bits-free p n i rounds (j + 1) b)

scan_words-free :
    (p : Pmm) (n rounds i b : ℕ)
    → i + rounds ≤ 2 ^ 27
    → scan_words p n rounds i ≡ some b
    → (b < (i + rounds) * 32) × (check_block b p ≡ false)
unfolding scan_words
scan_words-free p n zero i b h e = cc
scan_words-free p n (suc rounds) i b h e =
    ground (arith, scan_bits-free p n i 32 0 b, scan_words-free p n rounds (i + 1) b)

-- Whatever the number of blocks asked for, a block that the search returns lies inside the map and
-- is free.
pub find_first_free_block-free :
    (n : ℕ) (p : Pmm)
    → p.max_blocks ≤ 2 ^ 20
    → find_first_free_block n p ≢ four_gib
    → (find_first_free_block n p < p.max_blocks)
      × (check_block (find_first_free_block n p) p ≡ false)
unfolding find_first_free_block
find_first_free_block-free n p h ne = elim (Option-cases (scan_words p n (p.max_blocks / 32) 0)) [
  | inl e ↦ ground arith
  | inr (b, e) ↦ ground (arith, scan_words-free p n (p.max_blocks / 32) 0 b)
]

lt-two_pow : (j : ℕ) → j < 2 ^ j
lt-two_pow zero = omega arith
lt-two_pow (suc j) = omega (arith, lt-two_pow j, pow-suc 2 j)

scan_run-miss :
    (p : Pmm) (start : ℕ)
    → check_block (u32 (start + 0)) p ≡ true
    → check_block (u32 (start + 1)) p ≡ true
    → scan_run p 1 start 2 0 0 ≡ false
unfolding scan_run
scan_run-miss p start e f = ground arith

module _ (p : Pmm) (b : ℕ) (others : (c : ℕ) → c ≢ b → check_block c p ≡ true) where
  scan_run-lone :
      (i j : ℕ)
      → i < 2 ^ 15
      → j < 32
      → i * 32 + j ≡ b
      → scan_run p 1 (index_mmap i (1 << j)) 2 0 0 ≡ false
  scan_run-lone i j k h e =
      scan_run-miss p (index_mmap i (1 << j))
        (others _ (omega (arith, lt-two_pow j, two_pow-le j 31 (omega arith))))
        (others _ (omega (arith, lt-two_pow j, two_pow-le j 31 (omega arith))))

  scan_bits-lone : (i rounds j : ℕ) → i < 2 ^ 15 → j + rounds ≤ 32 → scan_bits p 1 i rounds j ≡ none
  unfolding scan_bits
  scan_bits-lone i zero j k h = refl
  scan_bits-lone i (suc rounds) j k h = ground (
    arith,
    scan_bits_test i j p,
    others (i * 32 + j),
    scan_run-lone i j,
    scan_bits-lone i rounds (j + 1),
  )

  scan_words-lone : (rounds i : ℕ) → i + rounds ≤ 2 ^ 15 → scan_words p 1 rounds i ≡ none
  unfolding scan_words
  scan_words-lone zero i h = refl
  scan_words-lone (suc rounds) i h =
      ground (arith, scan_bits-lone i 32 0, scan_words-lone rounds (i + 1))

  -- `find_first_free_block(1)` in a map of at most 2^20 blocks, where one block alone is free
  -- and every other number is used: it is not found.
  pub find_first_free_block-lone : p.max_blocks ≤ 2 ^ 20 → find_first_free_block 1 p ≡ four_gib
  unfolding find_first_free_block
  find_first_free_block-lone h = rw (scan_words-lone (p.max_blocks / 32) 0 (omega arith))

-- A used block inside what the search for two blocks returns.
module _ (p : Pmm) (i : ℕ) (before : (k : ℕ) → k < i → p.memory_map k ≡ 0xffff_ffff)
    (first : check_block (i * 32) p ≡ false) (second : check_block (i * 32 + 1) p ≡ true)
    (third : check_block (i * 32 + 2) p ≡ false) (fourth : check_block (i * 32 + 3) p ≡ false) where
  word_not_full : (p.memory_map i == 0xffff_ffff) ≡ false
  word_not_full = elim (Bool-cases (p.memory_map i == 0xffff_ffff)) [
    | inl e ↦
        let full : p.memory_map i ≡ 0xffff_ffff = ground arith in
        let t = scan_bits_test i 0 p (omega arith) in
        ground (arith, (rw full at t), ap (λ (x : ℕ). check_block x p) (add-zero (i * 32)))
    | inr e ↦ e
  ]

  scan_run-hole : i < 2 ^ 15 → scan_run p 2 (index_mmap i 1) 3 0 0 ≡ true
  unfolding scan_run
  scan_run-hole h =
      let a : u32 (index_mmap i 1 + 0) ≡ i * 32 + 1 = omega arith in
      let b : u32 (index_mmap i 1 + (0 + 1)) ≡ i * 32 + 2 = omega arith in
      let c : u32 (index_mmap i 1 + (0 + 1 + 1)) ≡ i * 32 + 3 = omega arith in
      rw (a, b, c, second, third, fourth)

  scan_bits-hole : i < 2 ^ 15 → scan_bits p 2 i 32 0 ≡ some (i * 32)
  unfolding scan_bits
  scan_bits-hole h = ground (
    arith,
    scan_bits_test i 0 p,
    ap (λ (x : ℕ). check_block x p) (add-zero (i * 32)),
    scan_run-hole h,
  )

  scan_words-hole :
      (rounds k : ℕ) → k ≤ i → i < k + rounds → i < 2 ^ 15 → scan_words p 2 rounds k ≡ some (i * 32)
  unfolding scan_words
  scan_words-hole zero k l m h = absurd (omega arith)
  scan_words-hole (suc rounds) k l m h = elim (dec_lt k i) [
    | yes q ↦ ground (arith, before k q, scan_words-hole rounds (k + 1) (omega arith))
    | no q ↦ let e : k ≡ i = omega arith in rw (e, word_not_full, scan_bits-hole h)
  ]

  -- `find_first_free_block(2)` counts free blocks past a used one: with every word before word
  -- `i` of the map full, block `32 i` free, the next one used and the two after it free, it
  -- returns `32 i`, although the second of the two blocks is in use.
  pub find_first_free_block-hole :
      p.max_blocks ≤ 2 ^ 20
      → i < p.max_blocks / 32
      → (find_first_free_block 2 p ≡ i * 32) × (check_block (i * 32 + 1) p ≡ true)
  unfolding find_first_free_block
  find_first_free_block-hole h k = (
    rw (scan_words-hole (p.max_blocks / 32) 0 (omega arith) (omega arith) (omega arith)) refl,
    second,
  )
