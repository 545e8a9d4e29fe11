-- ===== src/Sched/Alone.antt =====
-- What becomes of the tasks once the shell runs: the list runs empty, and stays so.
use splongle_os.Base.{ℕ, zero, suc, ◌≡◌, refl, arith, ◌∙◌, none, some}
use splongle_os.Sched.{
  Sched, find_slot, create_in_slot, create_kernel_task, multitasking_init, put_back, switch_to_task,
  schedule_first, schedule,
}
use splongle_os.Sched.Fair.{schedule_times}

-- With no first task there is nothing to do.
schedule_times-empty :
    (n : ℕ) (s : Sched) → s.postpone_counter ≡ 0 → s.first_ready ≡ none → schedule_times n s ≡ s
unfolding schedule
schedule_times-empty zero s free empty = refl
schedule_times-empty (suc n) s free empty =
    let same : schedule s ≡ s = ground arith in rw same (schedule_times-empty n s free empty)

-- A task that is created when `g_first_ready` is NULL but `g_last_ready` is not.
create_kernel_task-unreachable :
    (entrypoint l : ℕ) (s : Sched)
    → s.first_ready ≡ none
    → s.last_ready ≡ some l
    → let t = (create_kernel_task entrypoint s).1 in
      (t.first_ready ≡ none)
      × (t.postpone_counter ≡ s.postpone_counter)
      × (t.current_task ≡ s.current_task)
unfolding create_kernel_task create_in_slot
create_kernel_task-unreachable entrypoint l s empty last =
    (ground (arith, empty, last), ground (arith, empty, last), ground (arith, empty, last))

-- The kernel after its start, when the shell has been switched to and has called `Schedule` once.
abbrev pub shell_alone : ℕ → ℕ → Sched → Sched
shell_alone idle shell s =
    schedule (schedule (create_kernel_task shell (multitasking_init idle s)).1)

shell_alone-empty :
    (idle shell : ℕ) (s : Sched)
    → s.postpone_counter ≡ 0
    → let t = shell_alone idle shell s in
      (t.first_ready ≡ none)
      × (t.last_ready ≡ some 0)
      × (t.postpone_counter ≡ 0)
      × (t.current_task ≡ 2)
unfolding multitasking_init create_kernel_task find_slot create_in_slot schedule schedule_first
    switch_to_task put_back
shell_alone-empty idle shell s free = ground arith

-- With no switch postponed at first: when the shell is the only task that was created, has been
-- switched to and has called `Schedule` once, then it runs for ever, however often `Schedule` is
-- called; so it does if another task is created then, which never runs.
pub shell_alone_lem :
    (idle shell entrypoint n : ℕ) (s : Sched)
    → s.postpone_counter ≡ 0
    → let t = shell_alone idle shell s in
      ((schedule_times n t).current_task ≡ 2)
      × ((schedule_times n (create_kernel_task entrypoint t).1).current_task ≡ 2)
shell_alone_lem idle shell entrypoint n s free =
    let t = shell_alone idle shell s in
    let (empty, last, quiet, current) = shell_alone-empty idle shell s free in
    let (unreachable, postponed, same) = create_kernel_task-unreachable entrypoint 0 t empty last in
    let u = (create_kernel_task entrypoint t).1 in
    (
      rw (schedule_times-empty n t quiet empty) current,
      rw (schedule_times-empty n u (postponed ∙ quiet) unreachable) (same ∙ current),
    )
