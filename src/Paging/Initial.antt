-- ===== src/Paging/Initial.antt =====
-- What the tables map that `Page_Manager_Init` builds.
use splongle_os.Base.{
  ℕ, zero, suc, ◌+◌, ◌-◌, ◌*◌, ◌/◌, ◌%◌, ◌^◌, ◌≤◌, ◌<◌, ◌≡◌, ◌≢◌, refl, arith, ◌∙◌, sym, ap, true,
  false, none, some, ◌&&◌, ltb, leb, ◌==◌, if◌then◌else◌, u32, update, Bool-cases, inl, inr, ◌⊎◌,
}
use splongle_os.Paging.{
  pd_index, pt_index, set_attr, set_frame, kernel_address, page_size, fill_directory, fill_table,
  clear_word, build_tables,
}
use splongle_os.Paging.Entries.{pd_index_lem, pt_index_lem, set_frame_lem, set_present_write}
use splongle_os.Paging.Translate.{walk_table, translate}

-- Not in the page at `p`.
abbrev Outside : ℕ → ℕ → Type 0
Outside p a = (a < p) ⊎ (p + 4096 ≤ a)

fill_directory_lem :
    (dir n i j : ℕ) (m : ℕ → ℕ)
    → fill_directory dir n i m (dir + 4 * j)
      ≡ (if leb i j && ltb j (i + n) then 2 else m (dir + 4 * j))
unfolding fill_directory
fill_directory_lem dir zero i j m = ground arith
fill_directory_lem dir (suc n) i j m =
    fill_directory_lem dir n (i + 1) j (update m (dir + 4 * i) 2) ∙ ground arith

fill_directory-Outside :
    (dir n i a : ℕ) (m : ℕ → ℕ) → i + n ≤ 1024 → Outside dir a → fill_directory dir n i m a ≡ m a
unfolding fill_directory
fill_directory-Outside dir zero i a m h out = refl
fill_directory-Outside dir (suc n) i a m h out =
    let other : (dir + 4 * i == a) ≡ false = ground (arith, h, out) in
    fill_directory-Outside dir n (i + 1) a (update m (dir + 4 * i) 2) (omega (arith, h)) out
    ∙ rw other refl

-- An entry that is present and writable.
entry_lem :
    (frame : ℕ) → frame < 2 ^ 32 → frame % 4096 ≡ 0 → set_frame (set_attr 0 3) frame ≡ frame + 3
entry_lem frame h k = set_frame_lem (set_attr 0 3) frame h k ∙ omega (arith, set_present_write 0)

-- One table from the entry `i` on, of which `virt` is an address.
module _ (table c : ℕ) where
  fill_table_lem :
      (n i j frame virt : ℕ) (m : ℕ → ℕ)
      → virt ≡ c * 2 ^ 22 + 4096 * i
      → i + n ≤ 1024
      → frame + 4096 * n < 2 ^ 32
      → virt + 4096 * n < 2 ^ 32
      → frame % 4096 ≡ 0
      → fill_table table n frame virt m (table + 4 * j)
        ≡ (if leb i j && ltb j (i + n) then frame + 4096 * (j - i) + 3 else m (table + 4 * j))
  unfolding fill_table
  fill_table_lem zero i j frame virt m e h f v k = ground arith
  fill_table_lem (suc n) i j frame virt m e h f v k =
      let index : pt_index virt ≡ i = pt_index_lem virt ∙ omega (arith, e, h) in
      let entry = entry_lem frame (omega (arith, f)) k in
      let next : u32 (frame + page_size) ≡ frame + 4096 = omega (arith, f) in
      let next' : u32 (virt + page_size) ≡ virt + 4096 = omega (arith, v) in
      let m' = update m (table + 4 * i) (frame + 3) in
      let rest =
        fill_table_lem n (i + 1) j (frame + 4096) (virt + 4096) m' (omega (arith, e))
          (omega (arith, h)) (omega (arith, f)) (omega (arith, v)) (omega (arith, k)) in
      rw (index, entry, next, next') (rest ∙ ground arith)

  fill_table-Outside :
      (n i a frame virt : ℕ) (m : ℕ → ℕ)
      → virt ≡ c * 2 ^ 22 + 4096 * i
      → i + n ≤ 1024
      → virt + 4096 * n < 2 ^ 32
      → Outside table a
      → fill_table table n frame virt m a ≡ m a
  unfolding fill_table
  fill_table-Outside zero i a frame virt m e h v out = refl
  fill_table-Outside (suc n) i a frame virt m e h v out =
      let index : pt_index virt ≡ i = pt_index_lem virt ∙ omega (arith, e, h) in
      let next : u32 (virt + page_size) ≡ virt + 4096 = omega (arith, v) in
      let entry = set_frame (set_attr 0 3) frame in
      let other : (table + 4 * i == a) ≡ false = ground (arith, h, out) in
      rw (index, next)
        (fill_table-Outside n (i + 1) a (u32 (frame + page_size)) (virt + 4096)
            (update m (table + 4 * i) entry) (omega (arith, e)) (omega (arith, h))
            (omega (arith, v)) out
          ∙ rw other refl)

module _ (dir table table3g : ℕ) (d : dir % 4096 ≡ 0) (t : table % 4096 ≡ 0)
    (g : table3g % 4096 ≡ 0) (dt : dir ≢ table) (dg : dir ≢ table3g) (tg : table ≢ table3g)
    (tw : table < 2 ^ 32) (gw : table3g < 2 ^ 32) (m : ℕ → ℕ) where
  -- The directory, and both tables, filled; then the two entries of the directory.
  abbrev directory : ℕ → ℕ
  directory = clear_word table3g (clear_word table (fill_directory dir 1024 0 (clear_word dir m)))

  abbrev identity : ℕ → ℕ
  identity = fill_table table3g 1024 0 0 directory

  abbrev kernel : ℕ → ℕ
  kernel = fill_table table 1024 kernel_address 0xC000_0000 identity

  abbrev tables : ℕ → ℕ
  tables = build_tables dir table table3g m

  apart : (p q a : ℕ) → p % 4096 ≡ 0 → q % 4096 ≡ 0 → p ≢ q → a < 4096 → Outside p (q + a)
  apart p q a hp hq ne h = ground (arith, hp, hq, ne, h)

  directory_lem : (k : ℕ) → k < 1024 → kernel (dir + 4 * k) ≡ 2
  directory_lem k h =
      let from_table = apart table dir (4 * k) t d (λ e. dt (sym e)) (omega (arith, h)) in
      let from_identity = apart table3g dir (4 * k) g d (λ e. dg (sym e)) (omega (arith, h)) in
      fill_table-Outside table 768 1024 0 (dir + 4 * k) kernel_address 0xC000_0000 identity
        (omega arith) (omega arith) (omega arith) from_table
      ∙ fill_table-Outside table3g 0 1024 0 (dir + 4 * k) 0 0 directory (omega arith) (omega arith)
          (omega arith) from_identity
      ∙ ground
          (arith, from_table, from_identity, fill_directory_lem dir 1024 0 k (clear_word dir m))

  -- The last two stores.
  tables_lem :
      (a : ℕ)
      → tables a
        ≡ (if dir == a then table3g + 3 else if dir + 4 * 768 == a then table + 3 else kernel a)
  unfolding build_tables
  tables_lem a =
      let high : pd_index 0xC000_0000 ≡ 768 = pd_index_lem 0xC000_0000 (omega arith) in
      let low : pd_index 0 ≡ 0 = pd_index_lem 0 (omega arith) in
      let value : set_frame (set_attr 2 3) table ≡ table + 3 =
        set_frame_lem (set_attr 2 3) table tw t ∙ omega (arith, set_present_write 2) in
      let value' : set_frame (set_attr 2 3) table3g ≡ table3g + 3 =
        set_frame_lem (set_attr 2 3) table3g gw g ∙ omega (arith, set_present_write 2) in
      let first = directory_lem 0 (omega arith) in
      let upper = directory_lem 768 (omega arith) in
      let far : (dir + 4 * 768 == dir + 4 * 0) ≡ false = ground arith in
      rw (high, low, upper, far, first, value, value') (ground arith)

  filled_lem :
      (k : ℕ)
      → k < 1024
      → tables (dir + 4 * k) ≡ (if k == 0 then table3g + 3 else if k == 768 then table + 3 else 2)
  filled_lem k h = tables_lem (dir + 4 * k) ∙ ground (arith, directory_lem k h)

  kernel_lem : (j : ℕ) → j < 1024 → tables (table + 4 * j) ≡ kernel_address + 4096 * j + 3
  kernel_lem j h =
      let from_directory = apart dir table (4 * j) d t dt (omega (arith, h)) in
      let entry =
        fill_table_lem table 768 1024 0 j kernel_address 0xC000_0000 identity (omega arith)
          (omega arith) (omega arith) (omega arith) (omega arith) in
      tables_lem (table + 4 * j) ∙ ground (arith, from_directory, entry, h)

  identity_lem : (j : ℕ) → j < 1024 → tables (table3g + 4 * j) ≡ 4096 * j + 3
  identity_lem j h =
      let from_directory = apart dir table3g (4 * j) d g dg (omega (arith, h)) in
      let from_table = apart table table3g (4 * j) t g tg (omega (arith, h)) in
      let entry =
        fill_table_lem table3g 0 1024 0 j 0 0 directory (omega arith) (omega arith) (omega arith)
          (omega arith) (omega arith) in
      let kept =
        fill_table-Outside table 768 1024 0 (table3g + 4 * j) kernel_address 0xC000_0000 identity
          (omega arith) (omega arith) (omega arith) from_table in
      tables_lem (table3g + 4 * j) ∙ ground (arith, from_directory, kept, entry, h)

  -- The walk from a directory entry of one of the two tables.
  walk_lem :
      (page frame virt : ℕ)
      → page % 4096 ≡ 0
      → frame % 4096 ≡ 0
      → tables (page + 4 * (virt / 4096 % 1024)) ≡ frame + 4096 * (virt / 4096 % 1024) + 3
      → walk_table tables (page + 3) virt ≡ some (frame + virt % 2 ^ 22)
  walk_lem page frame virt hp hf entry =
      let base : (page + 3) / 4096 * 4096 ≡ page = omega arith in
      let present : ((page + 3) % 2 == 0) ≡ false = ground arith in
      let j = virt / 4096 % 1024 in
      let present' : ((frame + 4096 * j + 3) % 2 == 0) ≡ false = ground arith in
      let address : (frame + 4096 * j + 3) / 4096 * 4096 + virt % 4096 ≡ frame + virt % 2 ^ 22 =
        omega (arith, hf) in
      rw (base, present, entry, present', address) refl

  -- The address space.
  pub build_tables_lem :
      (virt : ℕ)
      → virt < 2 ^ 32
      → translate tables dir virt ≡ (
          if ltb virt (2 ^ 22)
          then some virt
          else if leb 0xC000_0000 virt && ltb virt 0xC040_0000
          then some (virt - 0xC000_0000 + 0x10_0000)
          else none)
  build_tables_lem virt h =
      let k = virt / 2 ^ 22 in
      let entry = filled_lem k (omega (arith, h)) in
      let j = virt / 4096 % 1024 in
      let low = walk_lem table3g 0 virt g refl (omega (arith, identity_lem j (omega arith))) in
      let high = walk_lem table kernel_address virt t refl (kernel_lem j (omega arith)) in
      elim (Bool-cases (k == 0)) [
        | inl e ↦
            let first = rw e at entry in
            let inside : ltb virt (2 ^ 22) ≡ true = ground (arith, e) in
            let same : 0 + virt % 2 ^ 22 ≡ virt = ground (arith, e) in
            ap (λ (pde : ℕ). walk_table tables pde virt) first ∙ low ∙ rw inside (ap some same)
        | inr e ↦ elim (Bool-cases (k == 768)) [
          | inl f ↦
              let second = rw (e, f) at entry in
              let outside : ltb virt (2 ^ 22) ≡ false = ground (arith, f) in
              let inside : (leb 0xC000_0000 virt && ltb virt 0xC040_0000) ≡ true =
                ground (arith, f) in
              let same : kernel_address + virt % 2 ^ 22 ≡ virt - 0xC000_0000 + 0x10_0000 =
                ground (arith, f) in
              ap (λ (pde : ℕ). walk_table tables pde virt) second
              ∙ high
              ∙ rw (outside, inside) (ap some same)
          | inr f ↦
              let other = rw (e, f) at entry in
              let outside : ltb virt (2 ^ 22) ≡ false = ground (arith, e) in
              let outside' : (leb 0xC000_0000 virt && ltb virt 0xC040_0000) ≡ false =
                ground (arith, f) in
              ap (λ (pde : ℕ). walk_table tables pde virt) other ∙ rw (outside, outside') refl
        ]
      ]
