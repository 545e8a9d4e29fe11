-- ===== src/Memmap/Walk.antt =====
-- The walks over the memory map, against the list of its entries.
use splongle_os.Base.{
  ℕ, zero, suc, ◌+◌, ◌%◌, ◌^◌, ◌≤◌, ◌<◌, ◌≡◌, refl, arith, ◌∙◌, ap, bit_and, List, [], ◌∷◌, length,
  true, false, ltb, ◌==◌, if◌then◌else◌, u32, u64,
}
use splongle_os.Pmm.{Pmm}
use splongle_os.Memmap.{
  Info, Entry, walk, add_length, add_one, get_total_mem, get_num_entries, set_entry, set_type1,
}

-- The entries lie one behind the other from an offset to the end of the map, which does not wrap.
abbrev pub LaidOut : (ℕ → Entry) → Info → ℕ → List Entry → Type 0
LaidOut entries info offset [] = offset ≡ info.mmap_length
LaidOut entries info offset (e ∷ es) =
    (entries (u32 (info.mmap_addr + offset)) ≡ e)
    × (offset + (e.size + 4) ≤ info.mmap_length)
    × LaidOut entries info (offset + (e.size + 4)) es

-- One step for each entry, from the first to the last.
abbrev pub visit {ℓ} : {A : Type ℓ} → (Entry → A → A) → List Entry → A → A
visit step [] acc = acc
visit step (e ∷ es) acc = visit step es (step e acc)

pub walk_lem {ℓ} :
    {A : Type ℓ} (step : Entry → A → A) (entries : ℕ → Entry) (info : Info) (es : List Entry)
    (fuel offset : ℕ) (acc : A)
    → info.mmap_length < 2 ^ 32
    → info.mmap_length ≤ offset + fuel
    → LaidOut entries info offset es
    → walk step entries info fuel offset acc ≡ visit step es acc
unfolding walk
walk_lem step entries info [] zero offset acc h k l = refl
walk_lem step entries info [] (suc fuel) offset acc h k l =
    let done : ltb offset info.mmap_length ≡ false = ground (arith, l) in rw done refl
walk_lem step entries info (e ∷ es) zero offset acc h k (at, inside, rest) =
    absurd (omega (arith, k, inside))
walk_lem step entries info (e ∷ es) (suc fuel) offset acc h k (at, inside, rest) =
    let more : ltb offset info.mmap_length ≡ true = ground (arith, inside) in
    let next : u32 (offset + (e.size + 4)) ≡ offset + (e.size + 4) = omega (arith, h, inside) in
    rw (more, at, next)
      (walk_lem step entries info es fuel (offset + (e.size + 4)) (step e acc) h (omega (arith, k))
        rest)

abbrev pub sum_lengths : List Entry → ℕ
sum_lengths [] = 0
sum_lengths (e ∷ es) = e.length + sum_lengths es

pub visit-add_length :
    (es : List Entry) (total : ℕ) → u64 (visit add_length es total) ≡ u64 (total + sum_lengths es)
visit-add_length [] total = ap u64 (omega arith)
visit-add_length (e ∷ es) total = visit-add_length es (add_length e total) ∙ omega arith

pub visit-add_length-lt :
    (es : List Entry) (total : ℕ) → total < 2 ^ 64 → visit add_length es total < 2 ^ 64
visit-add_length-lt [] total h = h
visit-add_length-lt (e ∷ es) total h = visit-add_length-lt es (add_length e total) (omega arith)

visit-add_one :
    (es : List Entry) (count : ℕ) → u32 (visit add_one es count) ≡ u32 (count + length es)
visit-add_one [] count = ap u32 (omega arith)
visit-add_one (e ∷ es) count = visit-add_one es (add_one e count) ∙ omega arith

-- `get_total_mem` and `get_num_entries` on a memory map whose entries lie one behind the other:
-- the sum of their lengths up to 64 bits and their number up to 32 bits, or 0 where the loader
-- gave no map.
pub memory_map_lem :
    (entries : ℕ → Entry) (info : Info) (es : List Entry)
    → info.mmap_length < 2 ^ 32
    → LaidOut entries info 0 es
    → (get_total_mem entries info
        ≡ (if bit_and info.flags 0x40 == 0 then 0 else sum_lengths es % 2 ^ 64))
      × (get_num_entries entries info
          ≡ (if bit_and info.flags 0x40 == 0 then 0 else length es % 2 ^ 32))
unfolding get_total_mem get_num_entries
memory_map_lem entries info es h l =
    let total = visit-add_length es 0 in
    let low = visit-add_length-lt es 0 (omega arith) in
    let count = visit-add_one es 0 in
    rw
      (
        walk_lem add_length entries info es info.mmap_length 0 0 h (omega arith) l,
        walk_lem add_one entries info es info.mmap_length 0 0 h (omega arith) l,
      )
      (
        ap (λ x. if bit_and info.flags 0x40 == 0 then 0 else x) (omega (arith, total, low)),
        ap (λ x. if bit_and info.flags 0x40 == 0 then 0 else x) (omega (arith, count)),
      )

pub set_type1-visit :
    (entries : ℕ → Entry) (info : Info) (es : List Entry) (p : Pmm)
    → info.mmap_length < 2 ^ 32
    → LaidOut entries info 0 es
    → set_type1 entries info p ≡ visit set_entry es p
unfolding set_type1
set_type1-visit entries info es p h l =
    walk_lem set_entry entries info es info.mmap_length 0 p h (omega arith) l
