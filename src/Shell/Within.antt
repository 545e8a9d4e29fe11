-- ===== src/Shell/Within.antt =====
-- A round of the shell keeps the ring, the screen and the index of the line in bounds.
use splongle_os.Base.{
  codes, ℕ, ◌≤◌, arith, ◌&&◌, Bool-cases, inl, inr, List, [], ◌∷◌, ◌++◌, ltb, ◌==◌, update,
}
use splongle_os.Console.{Console}
use splongle_os.Console.Within.{IsWithin, putc-IsWithin, puts-IsWithin, eatc-IsWithin}
use splongle_os.Keyboard.{keyboard_getchar, keyboard_haschar}
use splongle_os.Keyboard.Ring
use splongle_os.Keyboard.Ring.{keyboard_getchar_refines}
use splongle_os.Shell.{
  Action, text, schedule, get_block_info, set_show_datetime, select_drivers, play_note, Shell,
  send_command, show, end_line, handle_char, shell_step,
}

pub record IsBounded (m : ℕ → ℕ) (s : Shell) : Type 0 where
  pub index : s.pos ≤ 127
  pub ring : Ring.IsValid s.keyboard
  pub screen : IsWithin m s.console

module _ (m : ℕ → ℕ) where
  show-IsWithin : (calls : List Action) (c : Console) → IsWithin m c → IsWithin m (show calls c)
  unfolding show
  show-IsWithin [] c v = v
  show-IsWithin (text str ∷ calls) c v = show-IsWithin calls _ (puts-IsWithin m str c v)
  show-IsWithin (schedule ∷ calls) c v = show-IsWithin calls c v
  show-IsWithin (get_block_info ∷ calls) c v = show-IsWithin calls c v
  show-IsWithin (set_show_datetime ∷ calls) c v = show-IsWithin calls c v
  show-IsWithin (select_drivers ∷ calls) c v = show-IsWithin calls c v
  show-IsWithin (play_note n t ∷ calls) c v = show-IsWithin calls c v

  handle_char-IsBounded : (c : ℕ) (s : Shell) → IsBounded m s → IsBounded m (handle_char c s)
  unfolding handle_char end_line
  handle_char-IsBounded c s b = elim (Bool-cases (c == b'\n')) [
    | inl e ↦
        let line = update s.input s.pos 0 in
        let calls = send_command line ++ text (codes "$>") ∷ [] in
        rw e (record {
          index = omega arith;
          ring = b.ring;
          screen = show-IsWithin calls s.console b.screen;
        })
    | inr e ↦ elim (Bool-cases ((c == b'\x08') && ltb 0 s.pos)) [
      | inl f ↦
          rw (e, f)
            (record {
              index = ground (arith, b.index);
              ring = b.ring;
              screen = eatc-IsWithin m s.console b.screen;
            })
      | inr f ↦ elim (Bool-cases (ltb s.pos 127)) [
        | inl g ↦
            rw (e, f, g)
              (record {
                index = ground arith;
                ring = b.ring;
                screen = putc-IsWithin m c s.console b.screen;
              })
        | inr g ↦ rw (e, f, g) b
      ]
    ]
  ]

  pub shell_step-IsBounded : (s : Shell) → IsBounded m s → IsBounded m (shell_step s)
  unfolding shell_step
  shell_step-IsBounded s b = elim (Bool-cases (keyboard_haschar s.keyboard)) [
    | inl e ↦
        let (c, k) = keyboard_getchar s.keyboard in
        rw e (
          handle_char-IsBounded c (record s { keyboard = k })
            (record {
              index = b.index;
              ring = (keyboard_getchar_refines s.keyboard b.ring).1;
              screen = b.screen;
            }))
    | inr e ↦ rw e (record { index = b.index; ring = b.ring; screen = b.screen })
  ]
