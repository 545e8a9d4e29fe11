-- ===== src/Shell/Examples.antt =====
-- A full line and a line that begins with a command, and the claims about them.
use splongle_os.Base.{codes, ℕ, ◌≤◌, ◌≡◌, arith, false, [], ◌∷◌, get_or}
use splongle_os.Memory.Strings.{IsText}
use splongle_os.Shell.{Shell, send_command, handle_char, shell_run}
use splongle_os.Shell.Editor.{line, shell_run-bounded, handle_char_backspace}
use splongle_os.Shell.Commands.{commands, first_command, send_command_lem}

abbrev at_index : ℕ → Shell
at_index n = record {
  input = λ i. b'a';
  pos = n;
  keyboard = record { buffer = λ i. b'x'; head = 5; tail = 0; caps_on = false; caps_lock = false };
  console = record { screen = λ o. 0; x = 3; y = 2; color = 0x0F; bus = [] };
  actions = [];
}

shell_run-bounded_example : (shell_run 9 (at_index 127)).pos ≤ 127
shell_run-bounded_example = shell_run-bounded 9 (at_index 127) (omega arith)

handle_char_backspace_example :
    let t = handle_char b'\x08' (at_index 0) in line t.input t.pos ≡ b'\x08' ∷ []
handle_char_backspace_example = handle_char_backspace (at_index 0)

typed-IsText : IsText (λ i. get_or (codes "getmemory") i 0) 0 (codes "getmemory")
typed-IsText = omega arith

send_command_lem_example :
    send_command (λ i. get_or (codes "getmemory") i 0) ≡ first_command (codes "getmemory") commands
send_command_lem_example =
    send_command_lem (λ i. get_or (codes "getmemory") i 0) (codes "getmemory") typed-IsText
