-- ===== src/Keyboard/Within.antt =====
-- The interrupt handler keeps the ring and the screen in bounds.
use splongle_os.Base.{
  ℕ, Bool, true, false, not, ◌||◌, Bool-cases, inl, inr, ltb, ◌==◌, if◌then◌else◌, bit_and,
}
use splongle_os.Console.{movecursor}
use splongle_os.Console.Within.{IsWithin, movecursor-IsWithin}
use splongle_os.Keyboard.{State, push_below, dispatch, keyboard_handler}
use splongle_os.Keyboard.Ring
use splongle_os.Keyboard.Ring.{kb_buffer_push_refines}

pub record IsBounded (m : ℕ → ℕ) (s : State) : Type 0 where
  pub ring : Ring.IsValid s.keyboard
  pub screen : IsWithin m s.console

module _ (m : ℕ → ℕ) where
  push_below-IsBounded : (c : ℕ) (s : State) → IsBounded m s → IsBounded m (push_below c s)
  unfolding push_below
  push_below-IsBounded c s b = elim (Bool-cases (ltb 0 s.console.y)) [
    | inl e ↦
        rw e (record { ring = (kb_buffer_push_refines c s.keyboard b.ring).0; screen = b.screen })
    | inr e ↦ rw e b
  ]

  -- The keyboard's shift state is no part of the bounds.
  with_caps :
      (s : State) (on lock : Bool)
      → IsBounded m s
      → IsBounded m (record s { keyboard = record s.keyboard { caps_on = on; caps_lock = lock } })
  with_caps s on lock b = record {
    ring = record { head_in = b.ring.head_in; tail_in = b.ring.tail_in };
    screen = b.screen;
  }

  if-IsBounded :
      (t : Bool) (x y : State) → IsBounded m x → IsBounded m y → IsBounded m (if t then x else y)
  if-IsBounded true x y b c = b
  if-IsBounded false x y b c = c

  dispatch-IsBounded :
      (code : ℕ) (released : Bool) (s : State)
      → IsBounded m s
      → IsBounded m (dispatch code released s)
  unfolding dispatch
  dispatch-IsBounded code released s b =
      let k = s.keyboard in
      let pressed = not released in
      let moved : IsBounded m (record s { console = movecursor code s.console }) = record {
        ring = b.ring;
        screen = movecursor-IsWithin m code s.console b.screen;
      } in
      if-IsBounded ((code == 1) || (code == 14)) _ _
        (if-IsBounded pressed _ _ (push_below-IsBounded b'\x08' s b) b)
        (if-IsBounded (code == 28) _ _ (if-IsBounded pressed _ _ (push_below-IsBounded b'\n' s b) b)
          (if-IsBounded ((code == 29) || ((code == 54) || (code == 42))) _ _
            (with_caps s pressed k.caps_lock b)
            (if-IsBounded _ _ _ (if-IsBounded pressed _ _ moved b) (
              if-IsBounded ((code == 87) || (code == 88)) _ _ b (
                if-IsBounded (code == 58) _ _ (with_caps s k.caps_on _ b)
                  (if-IsBounded pressed _ _ (push_below-IsBounded _ s b) b))))))

  pub keyboard_handler-IsBounded :
      (code : ℕ) (s : State) → IsBounded m s → IsBounded m (keyboard_handler code s)
  unfolding keyboard_handler
  keyboard_handler-IsBounded code s b =
      if-IsBounded (code == 0xE0) _ _ b (dispatch-IsBounded (bit_and code 0x7F) _ s b)
