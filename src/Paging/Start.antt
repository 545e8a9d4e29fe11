-- ===== src/Paging/Start.antt =====
-- `Page_Manager_Init` of src/kernel/memory/page.c: the first address space.
use splongle_os.Base.{
  ℕ, ◌+◌, ◌-◌, ◌*◌, ◌^◌, ◌<◌, ◌≡◌, ◌≢◌, refl, arith, ◌∙◌, sym, ap, true, false, none, some, ◌&&◌,
  ltb, leb, ◌==◌, if◌then◌else◌, Bool-cases, inl, inr, ◌⊎◌,
}
use splongle_os.Pmm.{Pmm, block_size, check_block, allocate_blocks}
use splongle_os.Pmm.Allocate.{IsBounded, allocate_blocks_lem}
use splongle_os.Paging.{Vm, page_manager_init}
use splongle_os.Paging.Translate.{translate}
use splongle_os.Paging.Initial.{build_tables_lem}

-- An allocation that succeeds takes a free block, and leaves the used ones.
pub allocated :
    (n : ℕ) (p : Pmm)
    → IsBounded p
    → 0 < n
    → (allocate_blocks n p).0 ≢ 0
    → (b : ℕ) × ((allocate_blocks n p).0 ≡ b * block_size)
      × (b < 2 ^ 20)
      × (check_block b p ≡ false)
      × (check_block b (allocate_blocks n p).1 ≡ true)
      × ((c : ℕ) → check_block c p ≡ true → check_block c (allocate_blocks n p).1 ≡ true)
      × IsBounded (allocate_blocks n p).1
allocated n p v h ne = elim (allocate_blocks_lem n p v) [
  | inl (null, same) ↦ absurd (ne null)
  | inr (b, at, inside, was_free, blocks, counter, max, w) ↦
      let self : (leb b b && ltb b (b + n)) ≡ true = ground (arith, h) in
      (
        b,
        at,
        omega (arith, inside, v.blocks),
        was_free,
        blocks b ∙ rw self refl,
        λ c e. blocks c ∙ ground (arith, e),
        w,
      )
]

-- Blocks of which one was free while the other was used are two.
differ :
    (b c : ℕ) (p : Pmm)
    → check_block b p ≡ true
    → check_block c p ≡ false
    → b * block_size ≢ c * block_size
differ b c p used free e =
    let same : b ≡ c = omega (arith, e) in
    let clash : true ≡ false = sym used ∙ ap (λ (d : ℕ). check_block d p) same ∙ free in
    ground (arith, clash)

-- `Page_Manager_Init`, where at most 2^20 blocks are managed and no more are counted as used than
-- there are: it fails, which it does only if an allocation fails, and paging and the directory are
-- as before, or paging is on, the first 4 MiB are mapped to themselves, the 4 MiB from 0xC0000000
-- on to the 4 MiB from 1 MiB on, and nothing else is mapped.
pub page_manager_init_lem :
    (v : Vm) (virt : ℕ)
    → IsBounded v.pmm
    → virt < 2 ^ 32
    → let (done, w) = page_manager_init v in
      let (dir, p) = allocate_blocks 3 v.pmm in
      let (table, q) = allocate_blocks 1 p in
      ((done ≡ false)
        × ((dir ≡ 0) ⊎ ((table ≡ 0) ⊎ ((allocate_blocks 1 q).0 ≡ 0)))
        × (w.paging ≡ v.paging)
        × (w.current_pd ≡ v.current_pd))
      ⊎ ((done ≡ true)
          × (w.paging ≡ true)
          × (translate w.memory w.current_pd virt ≡ (
              if ltb virt (2 ^ 22)
              then some virt
              else if leb 0xC000_0000 virt && ltb virt 0xC040_0000
              then some (virt - 0xC000_0000 + 0x10_0000)
              else none)))
unfolding page_manager_init
page_manager_init_lem v virt bounded h =
    let (dir, p) = allocate_blocks 3 v.pmm in
    let (table, q) = allocate_blocks 1 p in
    let (table3g, r) = allocate_blocks 1 q in
    elim (Bool-cases (dir == 0)) [
      | inl e ↦ rw e (inl (refl, inl (ground (arith, e)), refl, refl))
      | inr e ↦ elim (Bool-cases (table == 0)) [
        | inl f ↦ rw (e, f) (inl (refl, inr (inl (ground (arith, f))), refl, refl))
        | inr f ↦ elim (Bool-cases (table3g == 0)) [
          | inl g ↦ rw (e, f, g) (inl (refl, inr (inr (ground (arith, g))), refl, refl))
          | inr g ↦
              let a = allocated 3 v.pmm bounded (omega arith) (ground (arith, e)) in
              let b = allocated 1 p a.6 (omega arith) (ground (arith, f)) in
              let c = allocated 1 q b.6 (omega arith) (ground (arith, g)) in
              let dt = differ a.0 b.0 p a.4 b.3 in
              let dg = differ a.0 c.0 q (b.5 a.0 a.4) c.3 in
              let tg = differ b.0 c.0 q b.4 c.3 in
              rw (e, f, g)
                (inr (
                  refl,
                  refl,
                  build_tables_lem dir table table3g (omega (arith, a.1)) (omega (arith, b.1))
                      (omega (arith, c.1)) (λ x. dt (sym a.1 ∙ x ∙ b.1))
                      (λ x. dg (sym a.1 ∙ x ∙ c.1)) (λ x. tg (sym b.1 ∙ x ∙ c.1))
                      (omega (arith, b.1, b.2)) (omega (arith, c.1, c.2)) v.memory virt h,
                ))
        ]
      ]
    ]
