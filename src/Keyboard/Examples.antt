-- ===== src/Keyboard/Examples.antt =====
-- A ring that has gone round once, and the claims about it.
use splongle_os.Base.{◌≡◌, refl, arith, true, false, [], ◌∷◌, get_or, ◌==◌, if◌then◌else◌, u8}
use splongle_os.Keyboard.{
  Keyboard, State, kb_buffer_push, keyboard_haschar, keyboard_getchar, keyboard_handler,
}
use splongle_os.Keyboard.Tables.{lowercase}
use splongle_os.Keyboard.Ring.{
  IsValid, contents, taken, kb_buffer_push_refines, keyboard_getchar_refines,
}
use splongle_os.Keyboard.Handler.{keyboard_handler-released, keyboard_handler-typed}

-- Two characters wait, at the indices 127 and 0.
abbrev round : Keyboard
round = record {
  buffer = λ i. if i == 0 then b'b' else b'a';
  head = 1;
  tail = 127;
  caps_on = false;
  caps_lock = false;
}

round-IsValid : IsValid round
round-IsValid = record { head_in = omega arith; tail_in = omega arith }

abbrev typing : State
typing = record {
  keyboard = round;
  console = record { screen = λ o. 0; x = 3; y = 2; color = 0x0F; bus = [] };
}

kb_buffer_push_refines_example :
    IsValid (kb_buffer_push b'c' round)
    × (contents (kb_buffer_push b'c' round) ≡ b'a' ∷ b'b' ∷ b'c' ∷ [])
kb_buffer_push_refines_example = kb_buffer_push_refines b'c' round round-IsValid

keyboard_getchar_refines_example :
    let (c, k) = keyboard_getchar round in
    ((c, contents k) ≡ taken (b'a' ∷ b'b' ∷ [])) × IsValid k × (keyboard_haschar round ≡ true)
keyboard_getchar_refines_example = keyboard_getchar_refines round round-IsValid

keyboard_handler-released_example :
    let t = keyboard_handler 0xAA typing in
    (t.console ≡ typing.console) × (t.keyboard ≡ record round { caps_on = false })
keyboard_handler-released_example =
    keyboard_handler-released 0xAA typing (omega arith) (omega arith)

keyboard_handler-typed_example :
    let t = keyboard_handler 30 typing in
    (contents t.keyboard ≡ b'a' ∷ b'b' ∷ u8 (get_or lowercase 30 0) ∷ [])
    × (t.console ≡ typing.console)
keyboard_handler-typed_example =
    keyboard_handler-typed 30 typing (omega arith) refl (omega arith) round-IsValid (omega arith)
