-- ===== src/Paging/MapPage.antt =====
-- `map_page`, with a table that is there and with a new one, and `unmap_page`.
use splongle_os.Base.{
  ℕ, ◌+◌, ◌*◌, ◌/◌, ◌%◌, ◌^◌, ◌<◌, ◌≤◌, ◌≡◌, ◌≢◌, ◌∷◌, refl, arith, ◌∙◌, ap, none, some, update,
}
use splongle_os.Paging.{Vm, unmap_page, get_page, clear_attr, set_frame}
use splongle_os.Paging.Entries.{
  pd_index_lem, pt_index_lem, page_phys_addr_lem, clear_present, set_frame_lem,
}
use splongle_os.Paging.Translate.{translate, page_at}
use splongle_os.Paging.Map.{IsMapped, entry, translate_removed, translate_elsewhere}
use splongle_os.Paging.Reach.{IsLow, IsReachable, IsReachable-kept, written-entry}

-- The page of `virt` leads to the frame `phys`, the other pages lead where they led, what the
-- processor has cached of the page is dropped, and the tables lie in the first 4 MiB.
pub record Maps (phys virt : ℕ) (v w : Vm) : Type 0 where
  pub directory : w.current_pd ≡ v.current_pd
  pub page : translate w.memory w.current_pd virt ≡ some (phys + virt % 4096)
  pub others :
      (other : ℕ)
      → other < 2 ^ 32
      → other / 4096 ≢ virt / 4096
      → translate w.memory w.current_pd other ≡ translate v.memory v.current_pd other
  pub flush : w.flushed ≡ virt ∷ v.flushed
  pub low : IsLow w

-- `unmap_page` of a page whose table is present, where the directory and its present tables lie in
-- used blocks of their own and in the first 4 MiB, which are mapped to themselves: the walk of the
-- tables leads the page to nothing and an address in another page as before, but no cached
-- translation is dropped, so the processor can go on with the one of the page; the first 4 MiB are
-- still mapped to themselves if the page is above them.
pub unmap_page_lem :
    (virt : ℕ) (v : Vm)
    → IsMapped v
    → IsReachable v
    → virt < 2 ^ 32
    → entry v (virt / 2 ^ 22) % 2 ≡ 1
    → let w = unmap_page virt v in
      (translate w.memory w.current_pd virt ≡ none)
      × (w.flushed ≡ v.flushed)
      × ((other : ℕ)
          → other < 2 ^ 32
          → other / 4096 ≢ virt / 4096
          → translate w.memory w.current_pd other ≡ translate v.memory v.current_pd other)
      × (2 ^ 22 ≤ virt → IsReachable w)
unfolding unmap_page get_page
unmap_page_lem virt v m reach h present =
    let e = entry v (virt / 2 ^ 22) in
    let page = page_at e virt in
    let rest = v.memory page % 4096 / 2 * 2 in
    let value : clear_attr (set_frame (v.memory page) 0) 1 ≡ rest =
      ap (λ x. clear_attr x 1) (set_frame_lem (v.memory page) 0 (omega arith) refl)
      ∙ (clear_present (0 + v.memory page % 4096) (omega arith) ∙ omega arith) in
    let w : Vm = record v { memory = update v.memory page rest } in
    let others = translate_elsewhere virt rest v m h present in
    rw (pd_index_lem virt h, page_phys_addr_lem e (m.words _), pt_index_lem virt, value)
      (
        translate_removed virt rest v m h present (omega arith),
        refl,
        others,
        IsReachable-kept virt v w reach refl others
            (written-entry virt rest v w m h present refl refl reach.low),
      )
