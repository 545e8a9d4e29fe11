-- ===== src/System/Examples.antt =====
-- A key that the shell takes, and the claim about it.
use splongle_os.Base.{◌%◌, refl, arith, false, []}
use splongle_os.Shell.{Shell, shell_step}
use splongle_os.Shell.Within.{IsBounded}
use splongle_os.System.{on_key, key, round, Reach, here, next}
use splongle_os.System.Invariant.{Reach-IsBounded}

abbrev prompt : Shell
prompt = record {
  input = λ i. 0;
  pos = 0;
  keyboard = record { buffer = λ i. 0; head = 127; tail = 127; caps_on = false; caps_lock = false };
  console = record { screen = λ o. o % 256; x = 2; y = 24; color = 0x0F; bus = [] };
  actions = [];
}

abbrev typed : Shell
typed = shell_step (on_key 30 prompt)

prompt-IsBounded : IsBounded (λ o. o % 256) prompt
prompt-IsBounded = record {
  index = omega arith;
  ring = record { head_in = omega arith; tail_in = omega arith };
  screen = record {
    column = omega arith;
    row = omega arith;
    colored = omega arith;
    bytes = λ o. omega arith;
    outside = λ o l. refl;
  };
}

typed-reached : Reach prompt typed
typed-reached = next (next here (key 30 (omega arith) refl)) (round refl)

Reach-IsBounded_example : IsBounded (λ o. o % 256) typed
Reach-IsBounded_example = Reach-IsBounded (λ o. o % 256) typed-reached prompt-IsBounded
