-- ===== src/Sched.antt =====
-- src/kernel/sched/sched.c and sched.asm: tasks, the list of tasks that are ready to run, and the
-- locks. A pointer to a task is its slot in `tasks`, and `none` is NULL.
pub mod Ready
pub mod Switch
pub mod Lost
pub mod Fair
pub mod Start
pub mod Block
pub mod Stale
pub mod Alone
pub mod Order
pub mod Locks
pub mod Create
pub mod Sample
mod Examples
use mathlib.Core.Option
use splongle_os.Base.{
  ℕ, zero, suc, ◌+◌, ◌-◌, ◌*◌, ◌%◌, ◌^◌, Bool, true, false, not, Option, none, some, ◌&&◌, ltb, leb,
  ◌==◌, if◌then◌else◌, u8, u32, sub32, update,
}

-- `thread_control_block`
pub record Task : Type 0 where
  pub esp : ℕ
  pub esp0 : ℕ
  pub cr3 : ℕ
  pub next : Option ℕ
  pub state : ℕ
  pub task_id : ℕ
  pub entrypoint : ℕ

-- The variables of the scheduler, then the registers that it uses (`esp` is the stack pointer at a
-- call of `switch_to_task`, `interrupts` the interrupt flag), the address of `kernel_stacks` and
-- the words in memory.
pub record Sched : Type 0 where
  pub tasks : ℕ → Task
  pub used : ℕ → Bool
  pub current_task : ℕ
  pub first_ready : Option ℕ
  pub last_ready : Option ℕ
  pub idle_task : Option ℕ
  pub num_tasks : ℕ
  pub next_id : ℕ
  pub task_switches_postponed : Bool
  pub postpone_counter : ℕ
  pub irq_disable_counter : ℕ
  pub tss_esp0 : ℕ
  pub esp : ℕ
  pub cr3 : ℕ
  pub interrupts : Bool
  pub kernel_stacks : ℕ
  pub memory : ℕ → ℕ

abbrev pub max_tasks : ℕ
max_tasks = 16

abbrev pub kstack_size : ℕ
kstack_size = 4096

abbrev pub running : ℕ
running = 0

abbrev pub ready_to_run : ℕ
ready_to_run = 1

abbrev pub set_next : ℕ → Option ℕ → (ℕ → Task) → ℕ → Task
set_next t n tasks = update tasks t (record (tasks t) { next = n })

abbrev pub set_state : ℕ → ℕ → (ℕ → Task) → ℕ → Task
set_state t st tasks = update tasks t (record (tasks t) { state = st })

abbrev pub set_esp : ℕ → ℕ → (ℕ → Task) → ℕ → Task
set_esp t v tasks = update tasks t (record (tasks t) { esp = v })

-- `p == q` for a pointer that may be NULL.
abbrev pub is_task : ℕ → Option ℕ → Bool
is_task t none = false
is_task t (some u) = t == u

-- Appends a task to the list: `link_last` is the code of `create_kernel_task`, of `unblock_task`
-- and of `switch_to_task` for it.
abbrev pub link_last : ℕ → Sched → Sched
link_last t s = elim s.last_ready [
  | none ↦ record s { first_ready = some t; last_ready = some t }
  | some l ↦ record s { tasks = set_next l (some t) s.tasks; last_ready = some t }
]

-- The previous task goes back to the list if it was running.
pub put_back : Sched → Sched
put_back s =
    let c = s.current_task in
    let t = link_last c (record s { tasks = set_state c ready_to_run s.tasks }) in
    if (s.tasks c).state == running then record t { tasks = set_next c none t.tasks } else s

-- `switch_to_task` of sched.asm: four registers are pushed before the stack pointer is saved, and
-- popped after the new one is loaded.
pub switch_to_task : ℕ → Sched → Sched
switch_to_task next s =
    let c = s.current_task in
    let t = put_back (record s { tasks = set_esp c (sub32 s.esp 16) s.tasks }) in
    let new = t.tasks next in
    if s.postpone_counter == 0
    then record t {
      current_task = next;
      tasks = set_state next running t.tasks;
      esp = u32 (new.esp + 16);
      tss_esp0 = new.esp0;
      cr3 = new.cr3;
    }
    else record s { task_switches_postponed = true }

-- `Schedule` with the first task of the list taken out.
pub schedule_first : ℕ → Sched → Sched
schedule_first task s =
    let rest = record s { first_ready = (s.tasks task).next } in
    if is_task task s.idle_task
    then (elim rest.first_ready [
      | some other ↦ switch_to_task other (record rest {
        tasks = set_next task (s.tasks other).next s.tasks;
        first_ready = some task;
      })
      | none ↦ if (s.tasks s.current_task).state == running then rest else switch_to_task task rest
    ])
    else switch_to_task task rest

pub schedule : Sched → Sched
schedule s =
    if ltb 0 s.postpone_counter
    then record s { task_switches_postponed = true }
    else (elim s.first_ready [ none ↦ s | some task ↦ schedule_first task s ])

-- The counters are C integers; one below 0 is `2 ^ 32 - 1` here.
pub lock_scheduler : Sched → Sched
lock_scheduler s = record s {
  interrupts = false;
  irq_disable_counter = u32 (s.irq_disable_counter + 1);
}

pub unlock_scheduler : Sched → Sched
unlock_scheduler s =
    let n = sub32 s.irq_disable_counter 1 in
    record s { irq_disable_counter = n; interrupts = if n == 0 then true else s.interrupts }

pub block_task : ℕ → Sched → Sched
block_task reason s =
    let t = lock_scheduler s in
    unlock_scheduler (schedule (record t { tasks = set_state t.current_task (u8 reason) t.tasks }))

-- With an empty list or while the idle task runs, the task runs at once; else it is put last. The
-- code does not test `g_last_ready`, which is not NULL when `g_first_ready` is not.
pub unblock_task : ℕ → Sched → Sched
unblock_task task s =
    let t = lock_scheduler s in
    let queued : Sched = elim t.first_ready [
      | none ↦ switch_to_task task t
      | some f ↦
          if is_task t.current_task t.idle_task then switch_to_task task t else link_last task t
    ] in
    unlock_scheduler queued

pub acquire_lock : Sched → Sched
acquire_lock s = record s {
  interrupts = false;
  irq_disable_counter = u32 (s.irq_disable_counter + 1);
  postpone_counter = u32 (s.postpone_counter + 1);
}

pub release_lock : Sched → Sched
release_lock s =
    let n = sub32 s.postpone_counter 1 in
    let t = record s { postpone_counter = n } in
    unlock_scheduler (
      if (n == 0) && s.task_switches_postponed
      then schedule (record t { task_switches_postponed = false })
      else t)

-- The loop for the first slot that is not used.
pub find_slot : ℕ → ℕ → (ℕ → Bool) → Option ℕ
find_slot zero i used = none
find_slot (suc rounds) i used =
    let rest = find_slot rounds (i + 1) used in if used i then rest else some i

-- The five words that `switch_to_task` pops at the first switch to the task.
pub push_frame : ℕ → ℕ → (ℕ → ℕ) → ℕ → ℕ
push_frame top entrypoint memory =
    update
      (update (update (update (update memory (top - 4) entrypoint) (top - 8) 0) (top - 12) 0)
        (top - 16) 0)
      (top - 20) 0

pub create_in_slot : ℕ → ℕ → Sched → Sched
create_in_slot entrypoint slot s =
    let top = s.kernel_stacks + slot * kstack_size + kstack_size in
    let task : Task = record {
      esp = top - 20;
      esp0 = top;
      cr3 = s.cr3;
      next = none;
      state = ready_to_run;
      task_id = s.next_id;
      entrypoint = entrypoint;
    } in
    let t = record s {
      used = update s.used slot true;
      memory = push_frame top entrypoint s.memory;
      tasks = update s.tasks slot task;
      next_id = u32 (s.next_id + 1);
    } in
    let linked = link_last slot t in record linked { num_tasks = u32 (linked.num_tasks + 1) }

-- The new task's slot, or NULL.
pub create_kernel_task : ℕ → Sched → Option ℕ × Sched
create_kernel_task entrypoint s =
    if leb max_tasks s.num_tasks then (none, s) else (elim (find_slot max_tasks 0 s.used) [
      | none ↦ (none, s)
      | some slot ↦ (some slot, create_in_slot entrypoint slot s)
    ])

-- `idle` is the entry of `kernel_idle_task`.
pub multitasking_init : ℕ → Sched → Sched
multitasking_init idle s =
    let main = record (s.tasks 0) {
      state = running;
      esp = s.esp;
      cr3 = s.cr3;
      esp0 = s.esp;
      task_id = s.next_id;
      next = none;
    } in
    let t = record s {
      used = update (λ i. if ltb i max_tasks then false else s.used i) 0 true;
      current_task = 0;
      num_tasks = 1;
      tasks = update s.tasks 0 main;
      next_id = u32 (s.next_id + 1);
      first_ready = none;
      last_ready = none;
    } in
    let (task, u) = create_kernel_task idle t in record u { idle_task = task }
