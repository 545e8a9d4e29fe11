-- ===== src/Keyboard.antt =====
-- src/kernel/dev/keyboard.c: the ring of typed characters and the interrupt handler.
pub mod Tables
pub mod Ring
pub mod Handler
pub mod Within
mod Examples
use splongle_os.Base.{
  ℕ, ◌+◌, ◌%◌, ◌^◌, Bool, true, false, not, ◌&&◌, ◌||◌, ltb, leb, ◌==◌, if◌then◌else◌, u8, update,
  get_or, bit_and,
}
use splongle_os.Console.{Console, movecursor}
use Tables.{lowercase, uppercase}

pub record Keyboard : Type 0 where
  pub buffer : ℕ → ℕ
  pub head : ℕ
  pub tail : ℕ
  pub caps_on : Bool
  pub caps_lock : Bool

abbrev pub max_size : ℕ
max_size = 128

-- The parameter is a `char`: one byte of what is passed.
pub kb_buffer_push : ℕ → Keyboard → Keyboard
kb_buffer_push c k =
    let next = (k.head + 1) % max_size in
    if next == k.tail then k else record k { buffer = update k.buffer k.head (u8 c); head = next }

pub keyboard_haschar : Keyboard → Bool
keyboard_haschar k = not (k.head == k.tail)

pub keyboard_getchar : Keyboard → ℕ × Keyboard
keyboard_getchar k =
    if k.head == k.tail
    then (0, k)
    else (k.buffer k.tail, record k { tail = (k.tail + 1) % max_size })

pub record State : Type 0 where
  pub keyboard : Keyboard
  pub console : Console

-- A character for the ring, if the cursor is below the first row.
push_below : ℕ → State → State
push_below c s =
    if ltb 0 s.console.y then record s { keyboard = kb_buffer_push c s.keyboard } else s

-- The cases of the switch. A key that is pressed has `press == 0`.
pub dispatch : ℕ → Bool → State → State
unfolding push_below
dispatch scancode released s =
    let pressed = not released in
    let k = s.keyboard in
    let lock = if pressed then not k.caps_lock else k.caps_lock in
    let char = get_or (if k.caps_on || k.caps_lock then uppercase else lowercase) scancode 0 in
    if (scancode == 1) || (scancode == 14)
    then if pressed then push_below b'\x08' s else s
    else if scancode == 28
    then if pressed then push_below b'\n' s else s
    else if (scancode == 29) || ((scancode == 54) || (scancode == 42))
    then record s { keyboard = record k { caps_on = pressed } }
    else if (scancode == 56)
        || ((leb 59 scancode && leb scancode 68) || ((scancode == 75) || (scancode == 77)))
    then if pressed then record s { console = movecursor scancode s.console } else s
    else if (scancode == 87) || (scancode == 88)
    then s
    else if scancode == 58
    then record s { keyboard = record k { caps_lock = lock } }
    else if pressed
    then push_below char s
    else s

-- `code` is the byte that the keyboard port gave.
pub keyboard_handler : ℕ → State → State
keyboard_handler code s =
    if code == 0xE0 then s else dispatch (bit_and code 0x7F) (not (bit_and code 0x80 == 0)) s
