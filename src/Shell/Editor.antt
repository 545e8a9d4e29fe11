-- ===== src/Shell/Editor.antt =====
-- The line that is being typed.
use splongle_os.Base.{
  codes, ℕ, zero, suc, ◌-◌, ◌≤◌, ◌≡◌, ◌≢◌, refl, arith, ap, Bool-cases, inl, inr, List, [], ◌∷◌,
  ◌++◌, ltb, ◌==◌, if◌then◌else◌, update,
}
use splongle_os.Shell.{Shell, text, send_command, end_line, handle_char, shell_step, shell_run}

-- The first `n` characters of the buffer.
abbrev pub line : (ℕ → ℕ) → ℕ → List ℕ
line input zero = []
line input (suc n) = line input n ++ input n ∷ []

line_same : (n p v : ℕ) (input : ℕ → ℕ) → n ≤ p → line (update input p v) n ≡ line input n
line_same zero p v input h = refl
line_same (suc n) p v input h =
    rw (line_same n p v input (omega arith)) (ap (λ (c : ℕ). line input n ++ c ∷ []) (ground arith))

-- However many rounds `Shell_Run` makes, whatever is typed, the index stays at most 127 if it is
-- so at first: inside the buffer of 128 characters, with room for the final 0.
pub shell_run-bounded : (rounds : ℕ) (s : Shell) → s.pos ≤ 127 → (shell_run rounds s).pos ≤ 127
unfolding shell_run
shell_run-bounded zero s h = h
shell_run-bounded (suc rounds) s h =
    shell_run-bounded rounds (shell_step s) (unfold shell_step handle_char end_line in ground arith)

-- A character that ends no line and deletes nothing is put at the end of the line, unless 127
-- characters stand there.
pub handle_char_typed :
    (c : ℕ) (s : Shell)
    → c ≢ b'\n'
    → c ≢ b'\x08'
    → let t = handle_char c s in
      line t.input t.pos
      ≡ (if ltb s.pos 127 then line s.input s.pos ++ c ∷ [] else line s.input s.pos)
unfolding handle_char end_line
handle_char_typed c s n b = elim (Bool-cases (ltb s.pos 127)) [
  | inl room ↦ ground (arith, line_same s.pos s.pos c s.input)
  | inr full ↦ ground arith
]

-- A line is given to the commands with a 0 behind it, and the next one starts empty.
pub handle_char_newline :
    (s : Shell)
    → let t = handle_char b'\n' s in
      (t.pos ≡ 0)
      × (t.input s.pos ≡ 0)
      × (line t.input s.pos ≡ line s.input s.pos)
      × (t.actions ≡ s.actions ++ (send_command t.input ++ text (codes "$>") ∷ []))
unfolding handle_char end_line
handle_char_newline s = (refl, ground arith, line_same s.pos s.pos 0 s.input (omega arith), refl)

-- A fault of the editor: a backspace at the start of a line is not ignored but put into the line.
pub handle_char_backspace :
    (s : Shell)
    → let t = handle_char b'\x08' s in
      line t.input t.pos ≡ (if s.pos == 0 then b'\x08' ∷ [] else line s.input (s.pos - 1))
unfolding handle_char end_line
handle_char_backspace s = ground arith
