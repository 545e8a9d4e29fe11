-- ===== src/Keyboard/Ring.antt =====
-- The ring of the keyboard driver is a queue of at most 127 characters.
use splongle_os.Base.{
  ℕ, zero, suc, ◌+◌, ◌-◌, ◌%◌, ◌<◌, ◌≡◌, ◌≢◌, refl, arith, true, false, not, Bool-cases, inl, inr,
  ap, ap₂, List, [], ◌∷◌, ◌++◌, length, ◌==◌, if◌then◌else◌, u8, update,
}
use splongle_os.Keyboard.{Keyboard, kb_buffer_push, keyboard_haschar, keyboard_getchar}

pub record IsValid (k : Keyboard) : Type 0 where
  pub head_in : k.head < 128
  pub tail_in : k.tail < 128

-- The `n` characters from index `t` on, going round at 128.
abbrev pub window : (ℕ → ℕ) → ℕ → ℕ → List ℕ
window buffer t zero = []
window buffer t (suc n) = buffer t ∷ window buffer ((t + 1) % 128) n

-- How many characters wait.
abbrev pub waiting : Keyboard → ℕ
waiting k = (k.head + 128 - k.tail) % 128

-- The characters that wait, the oldest first.
abbrev pub contents : Keyboard → List ℕ
contents k = window k.buffer k.tail (waiting k)

length-window : (buffer : ℕ → ℕ) (t n : ℕ) → length (window buffer t n) ≡ n
length-window buffer t zero = refl
length-window buffer t (suc n) = ap suc (length-window buffer ((t + 1) % 128) n)

-- Writing just behind a window that does not fill the ring makes it longer by one.
window-update :
    (n t h v : ℕ) (buffer : ℕ → ℕ)
    → t < 128
    → n < 127
    → h ≡ (t + n) % 128
    → window (update buffer h v) t (suc n) ≡ window buffer t n ++ v ∷ []
window-update zero t h v buffer l m e = ap (λ (c : ℕ). c ∷ []) (ground arith)
window-update (suc n) t h v buffer l m e =
    ap₂ ◌∷◌ (ground arith)
      (window-update n ((t + 1) % 128) h v buffer (omega arith) (omega arith) (omega arith))

window-front :
    (n t : ℕ) (buffer : ℕ → ℕ)
    → n ≢ 0
    → window buffer t n ≡ buffer t ∷ window buffer ((t + 1) % 128) (n - 1)
window-front zero t buffer ne = absurd (ne refl)
window-front (suc n) t buffer ne =
    ap (λ (k : ℕ). buffer t ∷ window buffer ((t + 1) % 128) k) (omega arith)

-- `kb_buffer_push`, with both indices inside the ring: they stay inside, and the character is put
-- behind those that wait, or dropped if 127 wait already.
pub kb_buffer_push_refines :
    (c : ℕ) (k : Keyboard)
    → IsValid k
    → IsValid (kb_buffer_push c k)
      × (contents (kb_buffer_push c k)
          ≡ (if length (contents k) == 127 then contents k else contents k ++ u8 c ∷ []))
unfolding kb_buffer_push
kb_buffer_push_refines c k v = elim (Bool-cases ((k.head + 1) % 128 == k.tail)) [
  | inl full ↦
      let n = length-window k.buffer k.tail (waiting k) in
      let count : (length (contents k) == 127) ≡ true = ground (arith, n, v.head_in, v.tail_in) in
      rw (full, count) (v, refl)
  | inr room ↦
      let n = length-window k.buffer k.tail (waiting k) in
      let count : (length (contents k) == 127) ≡ false = ground (arith, n, v.head_in, v.tail_in) in
      let more : ((k.head + 1) % 128 + 128 - k.tail) % 128 ≡ suc (waiting k) =
        ground (arith, v.head_in, v.tail_in) in
      rw (room, count)
        (
          record { head_in = omega arith; tail_in = v.tail_in },
          rw more (
              window-update (waiting k) k.tail k.head (u8 c) k.buffer v.tail_in
                (ground (arith, v.head_in, v.tail_in)) (ground (arith, v.head_in, v.tail_in))),
        )
]

-- The oldest character is taken out; without one the result is 0 and nothing changes.
abbrev pub taken : List ℕ → ℕ × List ℕ
taken [] = (0, [])
taken (c ∷ rest) = (c, rest)

-- `keyboard_getchar`, with both indices inside the ring: they stay inside, the oldest character
-- that waits is returned and taken out, or 0 is returned if none waits; `keyboard_haschar` tells
-- whether one waits.
pub keyboard_getchar_refines :
    (k : Keyboard)
    → IsValid k
    → let (c, k') = keyboard_getchar k in
      ((c, contents k') ≡ taken (contents k))
      × IsValid k'
      × (keyboard_haschar k ≡ not (length (contents k) == 0))
unfolding keyboard_getchar keyboard_haschar
keyboard_getchar_refines k v = elim (Bool-cases (k.head == k.tail)) [
  | inl same ↦
      let none_wait : waiting k ≡ 0 = ground (arith, v.head_in, v.tail_in) in
      rw (same, none_wait) (refl, v, refl)
  | inr differ ↦
      let some_wait : waiting k ≢ 0 = ground (arith, v.head_in, v.tail_in) in
      let fewer : (k.head + 128 - (k.tail + 1) % 128) % 128 ≡ waiting k - 1 =
        ground (arith, v.head_in, v.tail_in) in
      rw (differ, window-front (waiting k) k.tail k.buffer some_wait, fewer)
        (refl, record { head_in = v.head_in; tail_in = omega arith }, ground arith)
]
