-- ===== src/Pmm/Allocate.antt =====
-- `allocate_blocks` and `free_blocks`: what a caller gets, and that freeing undoes allocating.
use splongle_os.Base.{
  ℕ, ◌+◌, ◌*◌, ◌/◌, ◌^◌, ◌≤◌, ◌<◌, ◌≡◌, ◌≢◌, arith, true, false, ◌⊎◌, inl, inr, Bool-cases, ◌&&◌,
  ltb, leb, ◌==◌, if◌then◌else◌, u32, sub32,
}
use splongle_os.Pmm.{
  Pmm, four_gib, block_size, check_block, find_first_free_block, claim, release, allocate_blocks,
  free_blocks,
}
use splongle_os.Pmm.Blocks.{
  check_block-counter, check_block-claim, check_block-release, claim_frame, release_frame,
}
use splongle_os.Pmm.Search.{find_first_free_block-free}

-- The bounds that `Memory_Manager_Init` sets up.
pub record IsBounded (p : Pmm) : Type 0 where
  pub blocks : p.max_blocks ≤ 2 ^ 20
  pub counter : p.used_blocks ≤ p.max_blocks

-- `allocate_blocks(n)`, where at most 2^20 blocks are managed and no more are counted as used than
-- there are: either nothing is allocated and nothing changes, or the result is the address of the
-- first of `n` blocks that are used afterwards; the first one lies in the map and was free, no
-- other block changes, and the counter goes up by `n`.
pub allocate_blocks_lem :
    (n : ℕ) (p : Pmm)
    → IsBounded p
    → let (address, q) = allocate_blocks n p in
      ((address ≡ 0) × (q ≡ p))
      ⊎ ((b : ℕ) × (address ≡ b * block_size)
          × (b < p.max_blocks)
          × (check_block b p ≡ false)
          × ((c : ℕ)
              → check_block c q ≡ (if leb b c && ltb c (b + n) then true else check_block c p))
          × (q.used_blocks ≡ p.used_blocks + n)
          × (q.max_blocks ≡ p.max_blocks)
          × IsBounded q)
unfolding allocate_blocks
allocate_blocks_lem n p v =
    let b = find_first_free_block n p in
    elim (Bool-cases (ltb (sub32 p.max_blocks p.used_blocks) n)) [
      | inl e ↦ inl (ground arith)
      | inr e ↦ elim (Bool-cases (b == four_gib)) [
        | inl f ↦ inl (ground arith)
        | inr f ↦
            let found = find_first_free_block-free n p v.blocks (ground arith) in
            inr (
              b,
              ground arith,
              ground arith,
              found.1,
              λ c. ground (
                arith,
                check_block-counter c (u32 ((claim b n 0 p).used_blocks + n)) (claim b n 0 p),
                check_block-claim b n 0 c p,
              ),
              ground (arith, claim_frame b n 0 p),
              ground (arith, claim_frame b n 0 p),
              ground (arith, claim_frame b n 0 p),
            )
      ]
    ]

-- A block that is allocated alone, successfully and within the bounds of the map, and then freed:
-- every block is as before, and so is the counter.
pub free_blocks-allocate_blocks :
    (p : Pmm) (c : ℕ)
    → IsBounded p
    → (allocate_blocks 1 p).0 ≢ 0
    → let (address, q) = allocate_blocks 1 p in
      (check_block c (free_blocks address 1 q) ≡ check_block c p)
      × ((free_blocks address 1 q).used_blocks ≡ p.used_blocks)
unfolding free_blocks
free_blocks-allocate_blocks p c v ne = elim (allocate_blocks_lem 1 p v) [
  | inl (null, same) ↦ absurd (ne null)
  | inr (b, at, inside, was_free, blocks, counter, max, w) ↦
      let q = (allocate_blocks 1 p).1 in
      let start : (allocate_blocks 1 p).0 / block_size ≡ b = ground arith in
      rw start (
        ground (
          arith,
          check_block-counter c (sub32 (release b 1 0 q).used_blocks 1) (release b 1 0 q),
          check_block-release b 1 0 c q,
          blocks c,
        ),
        ground (arith, release_frame b 1 0 q),
      )
]

-- What is returned is 0 or the address of a block that is free, whatever the counter says.
pub allocate_blocks-free :
    (n : ℕ) (p : Pmm)
    → p.max_blocks ≤ 2 ^ 20
    → let address = (allocate_blocks n p).0 in
      (address ≡ 0)
      ⊎ ((b : ℕ) × (address ≡ b * block_size) × (b < p.max_blocks) × (check_block b p ≡ false))
unfolding allocate_blocks
allocate_blocks-free n p v =
    let b = find_first_free_block n p in
    elim (Bool-cases (ltb (sub32 p.max_blocks p.used_blocks) n)) [
      | inl e ↦ inl (ground arith)
      | inr e ↦ elim (Bool-cases (b == four_gib)) [
        | inl f ↦ inl (ground arith)
        | inr f ↦
            let found = find_first_free_block-free n p v (ground arith) in
            inr (b, ground arith, ground arith, found.1)
      ]
    ]
