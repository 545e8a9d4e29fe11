-- ===== src/Paging/Map.antt =====
-- `map_page`: the page is translated afterwards, every other page is as before, and the tables stay
-- apart.
use splongle_os.Base.{
  ℕ, ◌+◌, ◌*◌, ◌/◌, ◌%◌, ◌^◌, ◌<◌, ◌≡◌, ◌≢◌, inl, inr, refl, arith, none, some, true, Bool-cases,
  ◌==◌, update,
}
use splongle_os.Pmm.{check_block}
use splongle_os.Pmm.Allocate.{IsBounded}
use splongle_os.Paging.{Vm}
use splongle_os.Paging.Translate.{translate, IsWords, page_at}

-- Entry `d` of the current directory.
abbrev pub entry : Vm → ℕ → ℕ
entry v d = v.memory (v.current_pd + 4 * d)

-- The directory and its tables are pages of their own, in blocks that are used.
pub record IsMapped (v : Vm) : Type 0 where
  pub words : IsWords v.memory
  pub aligned : v.current_pd % 4096 ≡ 0
  pub bounded : IsBounded v.pmm
  pub directory : check_block (v.current_pd / 4096) v.pmm ≡ true
  pub tables :
      (d : ℕ)
      → d < 1024
      → entry v d % 2 ≡ 1
      → (check_block (entry v d / 4096) v.pmm ≡ true) × (entry v d / 4096 ≢ v.current_pd / 4096)
  pub apart :
      (d e : ℕ)
      → d < 1024
      → e < 1024
      → d ≢ e
      → entry v d % 2 ≡ 1
      → entry v e % 2 ≡ 1
      → entry v d / 4096 ≢ entry v e / 4096

-- A present table holds no entry of the directory.
pub private_entry :
    (v : Vm) (d e k : ℕ)
    → IsMapped v
    → d < 1024
    → e < 1024
    → k < 1024
    → entry v d % 2 ≡ 1
    → (v.current_pd + 4 * e ≢ entry v d / 4096 * 4096 + 4 * k)
private_entry v d e k m b c i present same =
    let t = (m.tables d b present).1 in let a = m.aligned in t (omega arith)

module _ (virt value : ℕ) (v : Vm) (m : IsMapped v) (h : virt < 2 ^ 32)
    (present : entry v (virt / 2 ^ 22) % 2 ≡ 1) where
  abbrev page : ℕ
  page = page_at (entry v (virt / 2 ^ 22)) virt

  -- A word of a table that is written leaves the directory as it is.
  pub entry_kept :
      (d : ℕ) → d < 1024 → update v.memory page value (v.current_pd + 4 * d) ≡ entry v d
  entry_kept d b =
      let own =
        private_entry v (virt / 2 ^ 22) d (virt / 4096 % 1024) m (omega arith) b (omega arith)
          present in
      ground (arith, own)

  pub translate_written :
      value % 2 ≡ 1
      → translate (update v.memory page value) v.current_pd virt
        ≡ some (value / 4096 * 4096 + virt % 4096)
  translate_written odd = rw (entry_kept (virt / 2 ^ 22) (omega arith)) (ground arith)

  pub translate_removed :
      value % 2 ≡ 0 → translate (update v.memory page value) v.current_pd virt ≡ none
  translate_removed even = rw (entry_kept (virt / 2 ^ 22) (omega arith)) (ground arith)

  pub translate_elsewhere :
      (other : ℕ)
      → other < 2 ^ 32
      → other / 4096 ≢ virt / 4096
      → translate (update v.memory page value) v.current_pd other
        ≡ translate v.memory v.current_pd other
  translate_elsewhere other k apart =
      rw (entry_kept (other / 2 ^ 22) (omega arith))
        (elim (Bool-cases (entry v (other / 2 ^ 22) % 2 == 0)) [
          | inl e ↦ rw e refl
          | inr e ↦
              let here : entry v (other / 2 ^ 22) % 2 ≡ 1 = ground arith in
              let differ : page_at (entry v (other / 2 ^ 22)) other ≢ page =
                elim (Bool-cases (other / 2 ^ 22 == virt / 2 ^ 22)) [
                  | inl f ↦
                      let same : other / 2 ^ 22 ≡ virt / 2 ^ 22 = ground arith in
                      rw same (ground arith)
                  | inr f ↦
                      let tables =
                        m.apart (other / 2 ^ 22) (virt / 2 ^ 22) (omega arith) (omega arith)
                          (ground arith) here present in
                      ground (arith, tables)
                ] in
              ground (arith, differ)
        ])
