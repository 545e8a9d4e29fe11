-- ===== src/Memmap/Regions.antt =====
-- `set_type1`: which blocks are used once the memory map is read.
use splongle_os.Base.{
  ℕ, ◌+◌, ◌-◌, ◌^◌, ◌<◌, ◌≡◌, refl, arith, ◌∙◌, ap, List, [], ◌∷◌, Bool, true, false, Bool-cases,
  inl, inr, ltb, leb, ◌==◌, if◌then◌else◌, u32, u64, min,
}
use splongle_os.Pmm.{Pmm, four_gib, check_block}
use splongle_os.Pmm.Regions.{in_region, initialize_region-blocks, deinitialize_region-blocks}
use splongle_os.Pmm.Frame.{initialize_region-max_blocks, deinitialize_region-max_blocks}
use splongle_os.Memmap.{Info, Entry, set_entry, set_type1}
use splongle_os.Memmap.Walk.{LaidOut, visit, set_type1-visit}

-- The state of block `c` after an entry: the blocks of available memory become free, but for block
-- 0, the other ones become used; nothing lies above 4 GiB.
abbrev pub marked : ℕ → Entry → Bool → Bool
marked c e used =
    let inside = in_region e.base (min e.length (four_gib - e.base)) c in
    if leb four_gib e.base
    then used
    else if e.kind == 1
    then if c == 0 then true else if inside then false else used
    else if inside
    then true
    else used

-- No entry goes up to 2 ^ 63.
abbrev pub AllBounded : List Entry → Type 0
AllBounded [] = true ≡ true
AllBounded (e ∷ es) = (e.base + e.length < 2 ^ 63) × AllBounded es

set_entry-marked :
    (c : ℕ) (e : Entry) (p : Pmm)
    → e.base + e.length < 2 ^ 63
    → check_block c (set_entry e p) ≡ marked c e (check_block c p)
unfolding set_entry
set_entry-marked c e p h =
    let length = if ltb four_gib (u64 (e.base + e.length)) then four_gib - e.base else e.length in
    let clipped : length ≡ min e.length (four_gib - e.base) = ground arith in
    elim (Bool-cases (leb four_gib e.base)) [
      | inl over ↦ rw over refl
      | inr below ↦
          let low : u32 e.base ≡ e.base = ground arith in
          rw (below, low, clipped)
            (elim (Bool-cases (e.kind == 1)) [
              | inl f ↦ rw f (
                  initialize_region-blocks e.base (min e.length (four_gib - e.base)) c p
                    (ground arith) (omega arith))
              | inr f ↦ rw f (
                  deinitialize_region-blocks e.base (min e.length (four_gib - e.base)) c p
                    (ground arith) (omega arith))
            ])
    ]

visit-marked :
    (c : ℕ) (es : List Entry) (p : Pmm)
    → AllBounded es
    → check_block c (visit set_entry es p) ≡ visit (marked c) es (check_block c p)
visit-marked c [] p b = refl
visit-marked c (e ∷ es) p (b, bs) =
    visit-marked c es (set_entry e p) bs ∙ ap (visit (marked c) es) (set_entry-marked c e p b)

-- `set_type1` on a memory map whose entries lie one behind the other and end below 2^63: a block
-- is used afterwards as the entries say that cover it, a later one over an earlier one; blocks
-- above 4 GiB are not touched, and block 0 is used after every available entry below it.
pub set_type1_lem :
    (entries : ℕ → Entry) (info : Info) (es : List Entry) (c : ℕ) (p : Pmm)
    → info.mmap_length < 2 ^ 32
    → LaidOut entries info 0 es
    → AllBounded es
    → check_block c (set_type1 entries info p) ≡ visit (marked c) es (check_block c p)
set_type1_lem entries info es c p h l b =
    ap (check_block c) (set_type1-visit entries info es p h l) ∙ visit-marked c es p b

set_entry-max_blocks : (e : Entry) (p : Pmm) → (set_entry e p).max_blocks ≡ p.max_blocks
unfolding set_entry
set_entry-max_blocks e p =
    let length = if ltb four_gib (u64 (e.base + e.length)) then four_gib - e.base else e.length in
    ground (
      arith,
      initialize_region-max_blocks (u32 e.base) length p,
      deinitialize_region-max_blocks (u32 e.base) length p,
    )

visit-max_blocks : (es : List Entry) (p : Pmm) → (visit set_entry es p).max_blocks ≡ p.max_blocks
visit-max_blocks [] p = refl
visit-max_blocks (e ∷ es) p = visit-max_blocks es (set_entry e p) ∙ set_entry-max_blocks e p

pub set_type1-max_blocks :
    (entries : ℕ → Entry) (info : Info) (es : List Entry) (p : Pmm)
    → info.mmap_length < 2 ^ 32
    → LaidOut entries info 0 es
    → (set_type1 entries info p).max_blocks ≡ p.max_blocks
set_type1-max_blocks entries info es p h l =
    ap (λ (q : Pmm). q.max_blocks) (set_type1-visit entries info es p h l) ∙ visit-max_blocks es p
