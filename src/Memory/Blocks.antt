-- ===== src/Memory/Blocks.antt =====
-- What `memcpy`, `memset` and `memcmp` do to each byte.
use splongle_os.Base.{
  ℕ, zero, suc, ◌+◌, ◌-◌, ◌≤◌, ◌≡◌, ◌⊎◌, inl, inr, Bool-cases, ◌↔◌, refl, arith, ◌&&◌, ltb, leb,
  ◌==◌, if◌then◌else◌, u8, update,
}
use splongle_os.Memory.{Bytes, memcpy_loop, memcpy, memset_loop, memset, memcmp_loop, memcmp}

memcpy_loop_lem :
    (dst src rounds i a : ℕ) (m : Bytes)
    → (dst ≤ src) ⊎ (src + rounds ≤ dst)
    → memcpy_loop dst src rounds i m a
      ≡ (if leb (dst + i) a && ltb a (dst + i + rounds) then m (src + (a - dst)) else m a)
unfolding memcpy_loop
memcpy_loop_lem dst src zero i a m apart = ground arith
memcpy_loop_lem dst src (suc rounds) i a m apart =
    let m' = update m (dst + i) (m (src + i)) in
    elim apart [
      | inl below ↦ ground (arith, memcpy_loop_lem dst src rounds (i + 1) a m' (inl below))
      | inr above ↦ ground (arith, memcpy_loop_lem dst src rounds (i + 1) a m' (inr (omega arith)))
    ]

-- `memcpy` to a destination that does not begin inside the source, or at its start: all of the
-- source is copied as it was before the call, also where the two overlap, and nothing outside the
-- destination changes.
pub memcpy_lem :
    (dst src num a : ℕ) (m : Bytes)
    → (dst ≤ src) ⊎ (src + num ≤ dst)
    → memcpy dst src num m a ≡ (if leb dst a && ltb a (dst + num) then m (src + (a - dst)) else m a)
unfolding memcpy
memcpy_lem dst src num a m apart = ground (arith, memcpy_loop_lem dst src num 0 a m apart)

memset_loop_lem :
    (ptr value rounds i a : ℕ) (m : Bytes)
    → memset_loop ptr value rounds i m a
      ≡ (if leb (ptr + i) a && ltb a (ptr + i + rounds) then u8 value else m a)
unfolding memset_loop
memset_loop_lem ptr value zero i a m = ground arith
memset_loop_lem ptr value (suc rounds) i a m =
    ground (arith, memset_loop_lem ptr value rounds (i + 1) a (update m (ptr + i) (u8 value)))

-- `memset` fills exactly the bytes asked for, with the value cut to a byte.
pub memset_lem :
    (ptr value num a : ℕ) (m : Bytes)
    → memset ptr value num m a ≡ (if leb ptr a && ltb a (ptr + num) then u8 value else m a)
unfolding memset
memset_lem ptr value num a m = ground (arith, memset_loop_lem ptr value num 0 a m)

-- The blocks agree on the bytes from `i` on.
abbrev pub Agree : ℕ → ℕ → ℕ → ℕ → Bytes → Type 0
Agree ptr1 ptr2 zero i m = Unit {0}
Agree ptr1 ptr2 (suc n) i m = (m (ptr1 + i) ≡ m (ptr2 + i)) × Agree ptr1 ptr2 n (i + 1) m

memcmp_loop_lem :
    (ptr1 ptr2 n i : ℕ) (m : Bytes) → ((memcmp_loop ptr1 ptr2 n i m ≡ 0) ↔ Agree ptr1 ptr2 n i m)
unfolding memcmp_loop
memcmp_loop_lem ptr1 ptr2 zero i m = (λ e. tt, λ h. refl)
memcmp_loop_lem ptr1 ptr2 (suc n) i m =
    let rest = memcmp_loop_lem ptr1 ptr2 n (i + 1) m in
    elim (Bool-cases (m (ptr1 + i) == m (ptr2 + i))) [
      | inl same ↦ rw same ((λ e. (ground arith, rest.0 e)), (λ h. rest.1 h.1))
      | inr differ ↦ rw differ ((λ e. absurd (omega arith)), (λ h. absurd (ground (arith, h.0))))
    ]

-- `memcmp` is 0 exactly if the two blocks agree byte for byte.
pub memcmp_lem :
    (ptr1 ptr2 num : ℕ) (m : Bytes) → (memcmp ptr1 ptr2 num m ≡ 0) ↔ Agree ptr1 ptr2 num 0 m
unfolding memcmp
memcmp_lem ptr1 ptr2 num m = memcmp_loop_lem ptr1 ptr2 num 0 m
