-- ===== src/Sched/Sample.antt =====
-- Tasks for the examples: task 0 runs, and others are ready.
use splongle_os.Base.{
  ℕ, ◌+◌, ◌*◌, refl, arith, true, false, Option, none, some, [], ◌∷◌, ltb, ◌==◌, if◌then◌else◌,
}
use splongle_os.Sched.{Task, Sched, running, ready_to_run}
use splongle_os.Sched.Ready.{IsReady}
use splongle_os.Sched.Fair.{IsTurn}

abbrev pub plain_task : ℕ → Option ℕ → ℕ → Task
plain_task esp link state = record {
  esp = esp;
  esp0 = esp + 20;
  cr3 = 0x2000;
  next = link;
  state = state;
  task_id = 7;
  entrypoint = 0x10_0000;
}

-- Of the ready tasks, `n` are used: 1 alone, or 1 and 2.
abbrev pub with_ready : Option ℕ → ℕ → Sched
with_ready second last = record {
  tasks = λ i.
      if i == 0
      then plain_task 0x9000 none running
      else if i == 1
      then plain_task 0xA000 second ready_to_run
      else plain_task 0xB000 none ready_to_run;
  used = λ i. ltb i 3;
  current_task = 0;
  first_ready = some 1;
  last_ready = some last;
  idle_task = some 3;
  num_tasks = 3;
  next_id = 3;
  task_switches_postponed = false;
  postpone_counter = 0;
  irq_disable_counter = 0;
  tss_esp0 = 0;
  esp = 0x8000;
  cr3 = 0x2000;
  interrupts = true;
  kernel_stacks = 0x4_0000;
  memory = λ a. 0;
}

abbrev pub two_ready : Sched
two_ready = with_ready (some 2) 2

abbrev pub one_ready : Sched
one_ready = with_ready none 1

pub two_ready-IsReady : IsReady two_ready 1 (2 ∷ [])
two_ready-IsReady = record {
  front = refl;
  back = refl;
  links = (refl, refl);
  distinct = ((omega arith, tt), (tt, tt));
}

pub one_ready-IsReady : IsReady one_ready 1 []
one_ready-IsReady = record { front = refl; back = refl; links = refl; distinct = (tt, tt) }

-- Task 0 runs, and 1, the idle task, 2, 3 and 4 are ready.
abbrev pub with_idle : Sched
with_idle = record two_ready {
  tasks = λ i.
      if i == 0
      then plain_task 0x9000 none running
      else plain_task (0x9000 + 0x1000 * i) (if ltb i 4 then some (i + 1) else none) ready_to_run;
  used = λ i. ltb i 5;
  last_ready = some 4;
  idle_task = some 1;
  num_tasks = 5;
  next_id = 5;
}

pub with_idle-IsTurn : IsTurn with_idle 1 0 (2 ∷ 3 ∷ 4 ∷ [])
with_idle-IsTurn = record {
  free = refl;
  ready = record {
    front = refl;
    back = refl;
    links = (refl, (refl, (refl, refl)));
    distinct = (
      (omega arith, (omega arith, (omega arith, tt))),
      ((omega arith, (omega arith, tt)), ((omega arith, tt), (tt, tt))),
    );
  };
  special = refl;
  current = refl;
  now_running = refl;
  out = (omega arith, (omega arith, (omega arith, (omega arith, tt))));
}
