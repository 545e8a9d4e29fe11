-- ===== src/Paging/Reach.antt =====
-- Where the kernel can write to its page tables: it uses their physical addresses as pointers, so
-- each must be mapped to itself, which is so for the first 4 MiB alone.
use splongle_os.Base.{
  ℕ, ◌+◌, ◌*◌, ◌/◌, ◌%◌, ◌^◌, ◌<◌, ◌≤◌, ◌≡◌, ◌≢◌, inl, inr, arith, ◌∙◌, ap, some, update, false,
}
use splongle_os.Pmm.{Pmm, check_block}
use splongle_os.Paging.{Vm, add_table}
use splongle_os.Paging.Translate.{translate, page_at}
use splongle_os.Paging.Map.{IsMapped, entry, entry_kept}
use splongle_os.Paging.Extend.{entry_cases}

-- The present tables lie in the first 4 MiB.
abbrev pub IsLow : Vm → Type 0
IsLow v = (d : ℕ) → d < 1024 → entry v d % 2 ≡ 1 → entry v d < 2 ^ 22

-- The first 4 MiB are mapped to themselves, and the directory and its tables lie there.
pub record IsReachable (v : Vm) : Type 0 where
  pub identity : (a : ℕ) → a < 2 ^ 22 → translate v.memory v.current_pd a ≡ some a
  pub directory : v.current_pd < 2 ^ 22
  pub low : IsLow v

-- The pages of the first 4 MiB stay as they are where a page above is changed.
pub IsReachable-kept :
    (virt : ℕ) (v w : Vm)
    → IsReachable v
    → w.current_pd ≡ v.current_pd
    → ((other : ℕ)
        → other < 2 ^ 32
        → other / 4096 ≢ virt / 4096
        → translate w.memory w.current_pd other ≡ translate v.memory v.current_pd other)
    → IsLow w
    → 2 ^ 22 ≤ virt
    → IsReachable w
IsReachable-kept virt v w r pd same low above = record {
  identity = λ a h. same a (omega arith) (omega arith) ∙ r.identity a h;
  directory = rw pd (r.directory);
  low = low;
}

-- A word of a table is no entry of the directory.
pub written-entry :
    (virt value : ℕ) (v w : Vm)
    → IsMapped v
    → virt < 2 ^ 32
    → entry v (virt / 2 ^ 22) % 2 ≡ 1
    → w.current_pd ≡ v.current_pd
    → w.memory ≡ update v.memory (page_at (entry v (virt / 2 ^ 22)) virt) value
    → IsLow v
    → IsLow w
written-entry virt value v w m h present pd memory low d b on =
    let kept : entry w d ≡ entry v d =
      ap (λ x. w.memory (x + 4 * d)) pd
      ∙ ap (λ (f : ℕ → ℕ). f (v.current_pd + 4 * d)) memory
      ∙ entry_kept virt value v m h present d b in
    rw kept (low d b (rw kept at on))

pub add_table-IsLow :
    (b d : ℕ) (p : Pmm) (v : Vm)
    → IsMapped v
    → b < 2 ^ 20
    → d < 1024
    → entry v d % 2 ≡ 0
    → check_block b v.pmm ≡ false
    → b * 4096 < 2 ^ 22
    → IsLow v
    → IsLow (add_table (b * 4096) (v.current_pd + 4 * d) (record v { pmm = p }))
add_table-IsLow b d p v m i j absent was_free near low e k on =
    elim (entry_cases b d p v m i j absent was_free e k) [
      | inl (f, now) ↦ rw now (omega arith)
      | inr (f, now) ↦ rw now (low e k (rw now at on))
    ]
