-- ===== src/System/Invariant.antt =====
-- What holds of the shell, the ring and the screen in every state that is reached.
use splongle_os.Base.{ℕ, ◌≡◌, arith, Bool, some, subst}
use splongle_os.Console.{Console, puts}
use splongle_os.Console.Place.{move}
use splongle_os.Rtc.{DateTime, show}
use splongle_os.Rtc.Display.{show-puts}
use splongle_os.Console.Within.{IsWithin, puts-IsWithin, move-puts-IsWithin}
use splongle_os.Keyboard.Within.{keyboard_handler-IsBounded}
use splongle_os.Shell.{Shell}
use splongle_os.Shell.Within.{IsBounded, shell_step-IsBounded}
use splongle_os.System.{on_key, Step, key, clock, round, print, Reach, here, next}

module _ (m : ℕ → ℕ) where
  on_key-IsBounded : (code : ℕ) (s : Shell) → IsBounded m s → IsBounded m (on_key code s)
  on_key-IsBounded code s b =
      let now =
        keyboard_handler-IsBounded m code (record { keyboard = s.keyboard; console = s.console })
          (record { ring = b.ring; screen = b.screen }) in
      record { index = b.index; ring = now.ring; screen = now.screen }

  show-IsWithin :
      (shown : Bool) (datetime : DateTime) (s c : Console)
      → show shown datetime s ≡ some c
      → IsWithin m s
      → IsWithin m c
  show-IsWithin shown datetime s c e v =
      let (str, printed) = show-puts shown datetime s in
      let same : move s.x s.y (puts str (move 60 23 s)) ≡ c = cc in
      subst (IsWithin m) same (move-puts-IsWithin m 60 23 str s (omega arith) (omega arith) v)

  Step-IsBounded : {s t : Shell} → Step s t → IsBounded m s → IsBounded m t
  Step-IsBounded {s} (key code h e) b = rw e (on_key-IsBounded code s b)
  Step-IsBounded {s} (clock shown datetime c drawn e) b = rw e (record {
    index = b.index;
    ring = b.ring;
    screen = show-IsWithin shown datetime s.console c drawn b.screen;
  })
  Step-IsBounded {s} (round e) b = rw e (shell_step-IsBounded m s b)
  Step-IsBounded {s} (print str e) b =
      rw e
        (record { index = b.index; ring = b.ring; screen = puts-IsWithin m str s.console b.screen })

  -- In whatever order bytes come from the keyboard, the clock shows or blanks a date, the shell
  -- runs and texts are printed, these bounds are kept: the index of the line stays in its
  -- buffer, both indices of the ring stay in the ring, the cursor stays on the screen or just
  -- behind its last column, and memory from byte 4002 of the screen on is never written.
  pub Reach-IsBounded : {s t : Shell} → Reach s t → IsBounded m s → IsBounded m t
  Reach-IsBounded here b = b
  Reach-IsBounded (next r st) b = Step-IsBounded st (Reach-IsBounded r b)
