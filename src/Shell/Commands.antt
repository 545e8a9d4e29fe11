-- ===== src/Shell/Commands.antt =====
-- Which command a line runs.
use Prim.Native.String.{String}
use splongle_os.Base.{
  codes, ℕ, ◌<◌, ◌≡◌, refl, arith, Bool, true, false, ◌||◌, List, [], ◌∷◌, length, get_or,
  if◌then◌else◌,
}
use splongle_os.Memory.Strings.{IsText, begins_with, strcmp_lem}
use splongle_os.Shell.{
  Action, text, get_block_info, set_show_datetime, select_drivers, play_note, a4, help_text,
  matches, send_command,
}

-- The names in the order in which they are tried, with the calls that each makes.
abbrev pub commands : List (List ℕ × List Action)
commands =
    (codes "help please", text help_text ∷ [])
    ∷ (codes "please help", text help_text ∷ [])
    ∷ (codes "help", text (codes "\nSay please\n") ∷ [])
    ∷ (codes "getmem", text (codes "\n") ∷ get_block_info ∷ text (codes "\n") ∷ [])
    ∷ (codes "version", text (codes "\nSplongleOS V 35\n") ∷ [])
    ∷ (codes "whoami", text (codes "\nsplongle\n") ∷ [])
    ∷ (codes "datetime", text (codes "\n") ∷ set_show_datetime ∷ play_note a4 20 ∷ [])
    ∷ (codes "lspci", text (codes "\n") ∷ select_drivers ∷ text (codes "\n") ∷ [])
    ∷ []

abbrev pub unrecognized : List Action
unrecognized = text (codes "\nUnrecognized command (caps sensitive!)\n") ∷ []

-- The calls of the first name that the line begins with.
abbrev pub first_command : List ℕ → List (List ℕ × List Action) → List Action
first_command str [] = unrecognized
first_command str ((name, calls) ∷ rest) =
    if begins_with str name then calls else first_command str rest

matches_lem :
    (lit : String) (cmd : ℕ → ℕ) (str : List ℕ)
    → IsText (λ i. get_or (codes lit) i 0) 0 (codes lit)
    → length (codes lit) < 16
    → IsText cmd 0 str
    → matches cmd lit ≡ begins_with str (codes lit)
unfolding matches
matches_lem lit cmd str stands short t =
    rw (strcmp_lem 16 str (codes lit) cmd (λ i. get_or (codes lit) i 0) t stands short, matches)

if_or :
    (a b : Bool) (x y : List Action)
    → (if a || b then x else y) ≡ (if a then x else if b then x else y)
if_or true b x y = refl
if_or false b x y = refl

-- `send_command` of a line that ends in 0 makes the calls of the first command whose name the line
-- begins with, whatever stands behind the name, and refuses a line that begins with none.
pub send_command_lem :
    (cmd : ℕ → ℕ) (str : List ℕ) → IsText cmd 0 str → send_command cmd ≡ first_command str commands
unfolding send_command
send_command_lem cmd str t =
    rw
      (
        matches_lem "help please" cmd str (omega arith) (omega arith) t,
        matches_lem "please help" cmd str (omega arith) (omega arith) t,
        matches_lem "help" cmd str (omega arith) (omega arith) t,
        matches_lem "getmem" cmd str (omega arith) (omega arith) t,
        matches_lem "version" cmd str (omega arith) (omega arith) t,
        matches_lem "whoami" cmd str (omega arith) (omega arith) t,
        matches_lem "datetime" cmd str (omega arith) (omega arith) t,
        matches_lem "lspci" cmd str (omega arith) (omega arith) t,
      )
      (if_or (begins_with str (codes "help please")) _ _ _)
