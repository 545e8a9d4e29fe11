-- ===== src/System.antt =====
-- The shell task with the interrupts of the keyboard and of the clock, over the keyboard driver and
-- the text screen: src/kernel/shell/shell.c, src/kernel/dev/keyboard.c, src/kernel/stdio.c and the
-- display of src/kernel/arch/i686/rtc.c together. An interrupt comes between two rounds of the
-- shell's loop.
pub mod Invariant
mod Examples
use splongle_os.Base.{ℕ, ◌<◌, ◌≡◌, Bool, some, List}
use splongle_os.Console.{Console, puts}
use splongle_os.Rtc.{DateTime, show}
use splongle_os.Keyboard.{State, keyboard_handler}
use splongle_os.Shell.{Shell, shell_step}

-- `keyboardHandler` works on the ring and the screen that the shell uses.
abbrev pub on_key : ℕ → Shell → Shell
on_key code s =
    let t = keyboard_handler code (record { keyboard = s.keyboard; console = s.console }) in
    record s { keyboard = t.keyboard; console = t.console }

-- A byte comes from the keyboard, the clock shows or blanks a date, the shell makes a round of its
-- loop, or another part of the kernel prints a text.
pub data Step (s t : Shell) : Type 0 where
  key : (code : ℕ) → code < 256 → t ≡ on_key code s → Step s t
  clock :
      (shown : Bool) (datetime : DateTime) (c : Console)
      → show shown datetime s.console ≡ some c
      → t ≡ record s { console = c }
      → Step s t
  round : t ≡ shell_step s → Step s t
  print : (str : List ℕ) → t ≡ record s { console = puts str s.console } → Step s t

-- In any order, any number of times.
pub data Reach (s : Shell) : Shell → Type 0 where
  here : Reach s s
  next : {t u : Shell} → Reach s t → Step t u → Reach s u
