-- ===== src/Paging/Extend.antt =====
-- `add_table`, and `map_page` with it: what a new table changes in the translation.
use splongle_os.Base.{
  ℕ, ◌+◌, ◌*◌, ◌/◌, ◌%◌, ◌^◌, ◌<◌, ◌≡◌, ◌≢◌, ◌⊎◌, inl, inr, refl, sym, arith, ◌∙◌, ap, true, false,
  Bool-cases, ltb, leb, ◌&&◌, ◌==◌, if◌then◌else◌,
}
use splongle_os.Pmm.{Pmm, check_block}
use splongle_os.Pmm.Allocate.{IsBounded}
use splongle_os.Paging.{Vm, add_table, clear_table, set_attr, set_frame}
use splongle_os.Paging.Entries.{set_frame_lem, set_present_write}
use splongle_os.Paging.Translate.{translate, page_at}
use splongle_os.Paging.Map.{IsMapped, entry, private_entry}

module _ (b d : ℕ) (p : Pmm) (v : Vm) (m : IsMapped v) (i : b < 2 ^ 20) (j : d < 1024)
    (absent : entry v d % 2 ≡ 0) (was_free : check_block b v.pmm ≡ false) where
  abbrev pde : ℕ
  pde = v.current_pd + 4 * d

  abbrev next : Vm
  next = add_table (b * 4096) pde (record v { pmm = p })

  abbrev fresh : ℕ
  fresh = b * 4096 + (entry v d / 4 * 4 + 3) % 4096

  not_directory : b ≢ v.current_pd / 4096
  not_directory = ground (arith, m.directory, was_free)

  not_table : (e : ℕ) → e < 1024 → entry v e % 2 ≡ 1 → b ≢ entry v e / 4096
  not_table e k present =
      let used = (m.tables e k present).0 in λ same. ground (arith, used, was_free, same)

  pub next_memory :
      (a : ℕ)
      → next.memory a ≡ (
          if a == pde
          then fresh
          else if leb (b * 4096) a && ltb a (b * 4096 + 4096)
          then 0
          else v.memory a)
  unfolding add_table
  next_memory a =
      let kept : clear_table (b * 4096) v.memory pde ≡ entry v d =
        let n = not_directory in let al = m.aligned in ground (arith, n, al) in
      let value : set_frame (set_attr (entry v d) 3) (b * 4096) ≡ fresh =
        set_frame_lem (set_attr (entry v d) 3) (b * 4096) (omega arith) (omega arith)
        ∙ ap (λ x. b * 4096 + x % 4096) (set_present_write (entry v d)) in
      rw (kept, value) (ground arith)

  pub next_entry :
      (e : ℕ)
      → e < 1024
      → next.memory (v.current_pd + 4 * e) ≡ (if e == d then fresh else entry v e)
  next_entry e k =
      let n = not_directory in
      let al = m.aligned in next_memory (v.current_pd + 4 * e) ∙ ground (arith, n, al)

  -- The walk of a page behind another entry of the directory.
  pub next_walk :
      (other : ℕ)
      → other < 2 ^ 32
      → translate next.memory v.current_pd other ≡ translate v.memory v.current_pd other
  next_walk other k = elim (Bool-cases (other / 2 ^ 22 == d)) [
    | inl e ↦
        let same : other / 2 ^ 22 ≡ d = ground arith in
        let n = not_directory in
        let al = m.aligned in
        let cleared : next.memory (page_at fresh other) ≡ 0 =
          next_memory (page_at fresh other) ∙ ground (arith, n, al) in
        let added : next.memory (v.current_pd + 4 * (other / 2 ^ 22)) ≡ fresh =
          next_entry (other / 2 ^ 22) (omega arith) ∙ ground (arith, same) in
        rw (added, cleared) (rw same (ground arith))
    | inr e ↦
        let old : next.memory (v.current_pd + 4 * (other / 2 ^ 22)) ≡ entry v (other / 2 ^ 22) =
          next_entry (other / 2 ^ 22) (omega arith) ∙ rw e refl in
        rw old (elim (Bool-cases (entry v (other / 2 ^ 22) % 2 == 0)) [
          | inl f ↦ rw f refl
          | inr f ↦
              let here : entry v (other / 2 ^ 22) % 2 ≡ 1 = ground arith in
              let own =
                private_entry v (other / 2 ^ 22) d (other / 4096 % 1024) m (omega arith) j
                  (omega arith) here in
              let apart = not_table (other / 2 ^ 22) (omega arith) here in
              let same : next.memory (page_at (entry v (other / 2 ^ 22)) other)
                  ≡ v.memory (page_at (entry v (other / 2 ^ 22)) other) =
                next_memory (page_at (entry v (other / 2 ^ 22)) other)
                ∙ ground (arith, own, apart) in
              rw same refl
        ])
  ]

  pub next_frame : (next.current_pd ≡ v.current_pd) × (next.pmm ≡ p)
  unfolding add_table
  next_frame = (refl, refl)

  new_frame : fresh / 4096 ≡ b
  new_frame = omega arith

  pub entry_cases :
      (e : ℕ)
      → e < 1024
      → ((e ≡ d) × (entry next e ≡ fresh)) ⊎ ((e ≢ d) × (entry next e ≡ entry v e))
  entry_cases e k =
      rw (next_frame.0, next_entry e k)
        (elim (Bool-cases (e == d)) [
          | inl f ↦ inl (ground arith, rw f refl)
          | inr f ↦ inr (ground arith, rw f refl)
        ])

  pub new_present : entry next d % 2 ≡ 1
  new_present = rw (next_frame.0) (ap (λ x. x % 2) (next_entry d j) ∙ ground arith)

  pub next-IsMapped :
      IsBounded p
      → ((c : ℕ)
          → check_block c p ≡ (if leb b c && ltb c (b + 1) then true else check_block c v.pmm))
      → IsMapped next
  next-IsMapped bounded blocks = record {
    words = λ a. rw (next_memory a) (ground (arith, m.words a, m.words pde));
    aligned = rw (next_frame.0) m.aligned;
    bounded = rw (next_frame.1) bounded;
    directory =
        rw (next_frame.0, next_frame.1, blocks (v.current_pd / 4096)) (ground (arith, m.directory));
    tables = λ e k present. elim (entry_cases e k) [
      | inl (f, now) ↦
          rw (now, new_frame, next_frame.0, next_frame.1)
            (rw (blocks b) (ground arith), not_directory)
      | inr (f, now) ↦
          let old : entry v e % 2 ≡ 1 = rw now at present in
          rw (now, next_frame.0, next_frame.1)
            (
              rw (blocks (entry v e / 4096)) (ground (arith, m.tables e k old)),
              (m.tables e k old).1,
            )
    ];
    apart = λ e f k l differ present present'. elim (entry_cases e k) [
      | inl (g, now) ↦ elim (entry_cases f l) [
        | inl (g', now') ↦ absurd (differ (g ∙ sym g'))
        | inr (g', now') ↦
            let old : entry v f % 2 ≡ 1 = rw now' at present' in
            rw (now, now', new_frame) (not_table f l old)
      ]
      | inr (g, now) ↦
          let old : entry v e % 2 ≡ 1 = rw now at present in
          elim (entry_cases f l) [
            | inl (g', now') ↦ rw (now, now', new_frame) (λ same. not_table e k old (sym same))
            | inr (g', now') ↦
                let old' : entry v f % 2 ≡ 1 = rw now' at present' in
                rw (now, now') (m.apart e f k l differ old old')
          ]
    ];
  }
