-- ===== src/Pmm/Count.antt =====
-- The counter `g_usedBlocks` against the number of used blocks of the map.
use splongle_os.Base.{
  ℕ, zero, suc, ◌+◌, ◌-◌, ◌/◌, ◌^◌, ◌≤◌, ◌<◌, ◌≡◌, refl, arith, true, false, min, inl, inr,
  Bool-cases, ◌==◌, if◌then◌else◌, u32, sub32,
}
use splongle_os.Pmm.{
  Pmm, four_gib, block_size, set_block, unset_block, check_block, allocate_blocks, free_blocks,
  free_region, region_blocks, initialize_region, release,
}
use splongle_os.Pmm.Blocks.{
  check_block-set_block, check_block-unset_block, check_block-counter, check_block-release,
  release_frame,
}
use splongle_os.Pmm.Regions.{region_blocks_lem, in_region, check_block-free_region}
use splongle_os.Pmm.Allocate.{IsBounded, allocate_blocks_lem}

-- How many of the first `n` blocks are used.
abbrev pub count_used : ℕ → Pmm → ℕ
count_used zero p = 0
count_used (suc n) p = (if check_block n p then 1 else 0) + count_used n p

pub count_used-le : (n : ℕ) (p : Pmm) → count_used n p ≤ n
count_used-le zero p = omega arith
count_used-le (suc n) p = ground (arith, count_used-le n p)

count_used_same :
    (n : ℕ) (p q : Pmm)
    → ((c : ℕ) → c < n → check_block c q ≡ check_block c p)
    → count_used n q ≡ count_used n p
count_used_same zero p q h = refl
count_used_same (suc n) p q h =
    let below = count_used_same n p q (λ c l. h c (omega arith)) in rw (h n (omega arith), below)

-- One block more is used.
count_used_more :
    (n b : ℕ) (p q : Pmm)
    → b < n
    → check_block b p ≡ false
    → ((c : ℕ) → check_block c q ≡ (if b == c then true else check_block c p))
    → count_used n q ≡ count_used n p + 1
count_used_more zero b p q l e h = absurd (omega arith)
count_used_more (suc n) b p q l e h = elim (Bool-cases (b == n)) [
  | inl here ↦
      let same = count_used_same n p q (λ c k. ground (arith, h c)) in ground (arith, h n, same)
  | inr below ↦ ground (arith, h n, count_used_more n b p q (ground arith) e h)
]

-- The counter is right.
abbrev pub IsCounted : Pmm → Type 0
IsCounted p = p.used_blocks ≡ count_used p.max_blocks p

-- Allocating one block, within the bounds of the map, keeps the counter equal to the number of
-- used blocks, whether it succeeds or fails.
pub allocate_blocks-IsCounted :
    (p : Pmm) → IsBounded p → IsCounted p → IsCounted (allocate_blocks 1 p).1
allocate_blocks-IsCounted p v h = elim (allocate_blocks_lem 1 p v) [
  | inl (null, same) ↦ rw same h
  | inr (b, at, inside, was_free, blocks, counter, max, w) ↦
      let q = (allocate_blocks 1 p).1 in
      let more =
        count_used_more p.max_blocks b p q inside was_free (λ c. ground (arith, blocks c)) in
      rw max (omega (arith, more))
]

-- One block less is used.
count_used_less :
    (n b : ℕ) (p q : Pmm)
    → b < n
    → check_block b p ≡ true
    → ((c : ℕ) → check_block c q ≡ (if b == c then false else check_block c p))
    → count_used n q + 1 ≡ count_used n p
count_used_less n b p q l e h =
    let back = count_used_more n b q p l (ground (arith, h b)) (λ c. ground (arith, h c)) in
    omega (arith, back)

-- Freeing one used block of the map keeps the counter equal to the number of used blocks.
pub free_blocks-IsCounted :
    (address : ℕ) (p : Pmm)
    → IsBounded p
    → IsCounted p
    → address / block_size < p.max_blocks
    → check_block (address / block_size) p ≡ true
    → IsCounted (free_blocks address 1 p)
unfolding free_blocks release unset_block
free_blocks-IsCounted address p v h inside was_used =
    let b = address / block_size in
    let q = free_blocks address 1 p in
    let r = release b 1 0 p in
    let less = count_used_less p.max_blocks b p q inside was_used (λ c. ground (
      arith,
      check_block-counter c (sub32 r.used_blocks 1) r,
      check_block-release b 1 0 c p,
      v.blocks,
    )) in
    rw (release_frame b 1 0 p).0 (omega (arith, less, release_frame b 1 0 p, v.blocks, v.counter))

-- Freeing a region of used blocks keeps the counter right.
free_region-IsCounted :
    (n align : ℕ) (p : Pmm)
    → align + n ≤ p.max_blocks
    → p.max_blocks ≤ 2 ^ 20
    → ((c : ℕ) → align ≤ c → c < align + n → check_block c p ≡ true)
    → IsCounted p
    → IsCounted (free_region n align p) × ((free_region n align p).max_blocks ≡ p.max_blocks)
unfolding free_region unset_block
free_region-IsCounted zero align p l m u h = (h, refl)
free_region-IsCounted (suc n) align p l m u h =
    let q = unset_block align p in
    let r : Pmm = record q { used_blocks = sub32 q.used_blocks 1 } in
    let blocks : (c : ℕ) → check_block c r ≡ (if align == c then false else check_block c p) = λ c.
      ground (
        arith,
        check_block-counter c (sub32 q.used_blocks 1) q,
        check_block-unset_block c align p,
      ) in
    let less =
      count_used_less p.max_blocks align p r (omega arith) (u align (omega arith) (omega arith))
        blocks in
    let bound = count_used-le p.max_blocks p in
    free_region-IsCounted n (u32 (align + 1)) r (omega arith) m
      (λ c k j. ground (arith, blocks c, u c)) (omega (arith, less, bound))

-- A fault of `initialize_region`: it marks block 0 as used again without counting it. From a right
-- counter, after a region of used blocks is made free, the counter is one too low exactly when the
-- region has block 0 in it.
pub initialize_region_miscount :
    (base size : ℕ) (p : Pmm)
    → base < four_gib
    → size < 2 ^ 63
    → p.max_blocks ≤ 2 ^ 20
    → base / block_size + min size (four_gib - base) / block_size ≤ p.max_blocks
    → ((c : ℕ) → c < p.max_blocks → check_block c p ≡ true)
    → IsCounted p
    → let q = initialize_region base size p in
      count_used q.max_blocks q
      ≡ (if in_region base size 0 then q.used_blocks + 1 else q.used_blocks)
unfolding initialize_region
initialize_region_miscount base size p h k m l u v =
    let n = region_blocks base size in
    let a = base / block_size in
    let f = free_region n a p in
    let e = region_blocks_lem base size h k in
    let kept =
      free_region-IsCounted n a p (omega (arith, e)) m (λ c i j. u c (omega (arith, e))) v in
    let blocks = λ (c : ℕ). check_block-free_region n a c p (omega (arith, e)) in
    let set = λ (c : ℕ). check_block-set_block c 0 f in
    elim (Bool-cases (in_region base size 0)) [
      | inl inside ↦
          let more =
            count_used_more p.max_blocks 0 f (set_block 0 f) (ground (arith, e))
              (ground (arith, e, blocks 0)) (λ c. set c) in
          unfold set_block in ground (arith, kept, more)
      | inr outside ↦
          let same =
            count_used_same p.max_blocks f (set_block 0 f)
              (λ c i. ground (arith, e, blocks 0, blocks c, set c, u 0)) in
          unfold set_block in ground (arith, kept, same)
    ]
