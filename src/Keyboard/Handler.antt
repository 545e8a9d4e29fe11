-- ===== src/Keyboard/Handler.antt =====
-- The handler of interrupt 1: when a key adds a character, and which.
use splongle_os.Base.{
  ℕ, ◌*◌, ◌%◌, ◌≤◌, ◌<◌, ◌≡◌, refl, arith, Bool, true, false, not, ◌&&◌, ◌||◌, Bool-cases, inl, inr,
  [], ◌∷◌, ◌++◌, length, get_or, ltb, leb, ◌==◌, if◌then◌else◌, u8, bit_and,
}
use splongle_os.Base.Bits.{bit_and-low, bit_and-pow, bit}
use splongle_os.Keyboard.{State, push_below, dispatch, keyboard_handler}
use splongle_os.Keyboard.Tables.{lowercase, uppercase}
use splongle_os.Keyboard.Ring

top_bit : (code : ℕ) → code < 256 → not (bit_and code 0x80 == 0) ≡ leb 128 code
unfolding bit
top_bit code h =
    let top = bit_and-pow code 7 in
    let value : bit 7 code * 128 ≡ (if leb 128 code then 128 else 0) = ground arith in
    ground (arith, top, value)

-- What the handler reads from a code: the key, and whether it was released.
keyboard_handler-dispatch :
    (code : ℕ) (s : State)
    → code < 256
    → keyboard_handler code s ≡ (if code == 0xE0 then s else dispatch (code % 128) (leb 128 code) s)
unfolding keyboard_handler
keyboard_handler-dispatch code s h =
    let key : bit_and code 0x7F ≡ code % 128 = bit_and-low 7 code in rw (key, top_bit code h)

-- A scan code from 128 to 255, as a released key sends it: the screen stays as it is, and of the
-- keyboard only the state of shift changes, for the codes 0x9D, 0xAA and 0xB6.
pub keyboard_handler-released :
    (code : ℕ) (s : State)
    → code < 256
    → 128 ≤ code
    → let t = keyboard_handler code s in
      (t.console ≡ s.console)
      × (t.keyboard ≡ (
          if (code == 0x9D) || ((code == 0xB6) || (code == 0xAA))
          then record s.keyboard { caps_on = false }
          else s.keyboard))
unfolding dispatch
keyboard_handler-released code s h k =
    let e = keyboard_handler-dispatch code s h in
    let up : leb 128 code ≡ true = ground arith in
    elim (Bool-cases (code == 0xE0)) [
      | inl prefix ↦ rw (e, prefix) (refl, ground arith)
      | inr plain ↦ rw (e, plain, up) (ground arith, ground arith)
    ]

-- The keys to which the handler gives a meaning of its own.
abbrev pub is_special : ℕ → Bool
is_special n =
    (n == 1)
    || ((n == 14)
        || ((n == 28)
            || ((n == 29)
                || ((n == 42)
                    || ((n == 54)
                        || ((n == 56)
                            || ((leb 58 n && leb n 68)
                                || ((n == 75) || ((n == 77) || ((n == 87) || (n == 88)))))))))))

dispatch-typed :
    (n : ℕ) (s : State)
    → is_special n ≡ false
    → dispatch n false s
      ≡ push_below
          (get_or (if s.keyboard.caps_on || s.keyboard.caps_lock then uppercase else lowercase) n 0)
          s
unfolding dispatch
dispatch-typed n s h = ground arith

-- A key that is pressed and has no meaning of its own, the cursor being below the first row and
-- fewer than 127 characters waiting: its character is put behind those that wait, that of the
-- upper case table if shift or caps lock is on; the screen stays as it is.
pub keyboard_handler-typed :
    (code : ℕ) (s : State)
    → code < 128
    → is_special code ≡ false
    → 0 < s.console.y
    → Ring.IsValid s.keyboard
    → length (Ring.contents s.keyboard) < 127
    → let t = keyboard_handler code s in
      (Ring.contents t.keyboard
        ≡ Ring.contents s.keyboard
          ++ u8 (
              get_or
                (if s.keyboard.caps_on || s.keyboard.caps_lock then uppercase else lowercase)
                code
                0)
            ∷ [])
      × (t.console ≡ s.console)
unfolding push_below
keyboard_handler-typed code s h special below v room =
    let e = keyboard_handler-dispatch code s (omega arith) in
    let plain : (code == 0xE0) ≡ false = ground arith in
    let down : leb 128 code ≡ false = ground arith in
    let key : code % 128 ≡ code = omega arith in
    let under : ltb 0 s.console.y ≡ true = ground arith in
    let some_room : (length (Ring.contents s.keyboard) == 127) ≡ false = ground arith in
    let char =
      get_or (if s.keyboard.caps_on || s.keyboard.caps_lock then uppercase else lowercase) code 0 in
    rw (e, plain, down, key, dispatch-typed code s special, under)
      ((rw some_room at (Ring.kb_buffer_push_refines char s.keyboard v).1), refl)
