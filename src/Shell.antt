-- ===== src/Shell.antt =====
-- src/kernel/shell/shell.c: the line editor and the commands. Each round of the loop of `Shell_Run`
-- is a step; the calls that leave the console are recorded in order.
pub mod Editor
pub mod Commands
pub mod Within
mod Examples
use Prim.Native.String.{String}
use splongle_os.Base.{
  codes, ℕ, zero, suc, ◌+◌, ◌-◌, ◌%◌, ◌^◌, Bool, true, false, Option, none, some, List, [], ◌∷◌,
  ◌++◌, ◌&&◌, ◌||◌, ltb, leb, ◌==◌, if◌then◌else◌, u8, update, get_or,
}
use splongle_os.Memory.{strcmp}
use splongle_os.Console.{Console, putc, puts, eatc}
use splongle_os.Keyboard.{Keyboard, State, keyboard_haschar, keyboard_getchar}

-- A call out of the shell.
pub data Action : Type 0 where
  text : List ℕ → Action
  schedule get_block_info set_show_datetime select_drivers : Action
  play_note : ℕ → ℕ → Action

-- `A4` of pc_speaker.h
abbrev pub a4 : ℕ
a4 = 2711

abbrev pub help_text : List ℕ
help_text =
    codes
      "\ngetmem - display physical memory information                 \nversion - display SplongleOS version                 \nwhoami - display who you are                 \ndatetime - toggle the date and time on screen                 \nlspci - list PCI devices                 \n"

-- `strcmp(cmd, "...")` against a literal, with fuel above its length.
pub matches : (ℕ → ℕ) → String → Bool
unfolding strcmp
matches cmd lit = elim (strcmp 16 cmd (λ i. get_or (codes lit) i 0)) [ none ↦ false | some b ↦ b ]

pub send_command : (ℕ → ℕ) → List Action
send_command cmd =
    if matches cmd "help please" || matches cmd "please help"
    then text help_text ∷ []
    else if matches cmd "help"
    then text (codes "\nSay please\n") ∷ []
    else if matches cmd "getmem"
    then text (codes "\n") ∷ get_block_info ∷ text (codes "\n") ∷ []
    else if matches cmd "version"
    then text (codes "\nSplongleOS V 35\n") ∷ []
    else if matches cmd "whoami"
    then text (codes "\nsplongle\n") ∷ []
    else if matches cmd "datetime"
    then text (codes "\n") ∷ set_show_datetime ∷ play_note a4 20 ∷ []
    else if matches cmd "lspci"
    then text (codes "\n") ∷ select_drivers ∷ text (codes "\n") ∷ []
    else text (codes "\nUnrecognized command (caps sensitive!)\n") ∷ []

pub record Shell : Type 0 where
  pub input : ℕ → ℕ
  pub pos : ℕ
  pub keyboard : Keyboard
  pub console : Console
  pub actions : List Action

-- `char input[128]`
abbrev pub input_size : ℕ
input_size = 128

-- What the texts among the calls put on the screen; the other calls are made elsewhere.
pub show : List Action → Console → Console
show [] c = c
show (text str ∷ actions) c = show actions (puts str c)
show (_ ∷ actions) c = show actions c

-- The end of a line: the command runs, and a new prompt is shown.
pub end_line : (ℕ → ℕ) → Shell → Shell
unfolding show
end_line line s =
    let calls = send_command line ++ text (codes "$>") ∷ [] in
    record s { input = line; pos = 0; console = show calls s.console; actions = s.actions ++ calls }

-- What the shell does with a character.
pub handle_char : ℕ → Shell → Shell
handle_char c s =
    if c == b'\n'
    then end_line (update s.input s.pos 0) s
    else if (c == b'\x08') && ltb 0 s.pos
    then record s { pos = s.pos - 1; console = eatc s.console }
    else if ltb s.pos (input_size - 1)
    then record s { input = update s.input s.pos c; pos = s.pos + 1; console = putc c s.console }
    else s

-- One round of the loop.
pub shell_step : Shell → Shell
shell_step s =
    if keyboard_haschar s.keyboard
    then (let (c, k) = keyboard_getchar s.keyboard in handle_char c (record s { keyboard = k }))
    else record s { actions = s.actions ++ schedule ∷ [] }

pub shell_run : ℕ → Shell → Shell
shell_run zero s = s
shell_run (suc rounds) s = shell_run rounds (shell_step s)
