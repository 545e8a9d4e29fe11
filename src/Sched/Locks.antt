-- ===== src/Sched/Locks.antt =====
-- The counters of the locks, and switches that are put off while a lock is held.
use splongle_os.Base.{
  ℕ, ◌+◌, ◌-◌, ◌^◌, ◌<◌, ◌≡◌, ◌≢◌, ap, arith, true, false, Bool-cases, inl, inr, ◌==◌,
  if◌then◌else◌, u32, sub32,
}
use splongle_os.Sched.{
  Sched, schedule, lock_scheduler, unlock_scheduler, acquire_lock, release_lock, switch_to_task,
}

-- `Schedule` and `switch_to_task` while a lock is held change nothing but to remember that a
-- switch is due.
pub schedule_postponed :
    (t : ℕ) (s : Sched)
    → s.postpone_counter ≢ 0
    → (schedule s ≡ record s { task_switches_postponed = true })
      × (switch_to_task t s ≡ record s { task_switches_postponed = true })
unfolding schedule switch_to_task
schedule_postponed t s held = (ground arith, ground arith)

-- `lock_scheduler` and then `unlock_scheduler`, with room in the counter: the counter is as
-- before, and interrupts are enabled exactly when no other piece of code wants them disabled.
pub unlock_scheduler-lock_scheduler :
    (s : Sched)
    → s.irq_disable_counter < 2 ^ 32 - 1
    → unlock_scheduler (lock_scheduler s) ≡ record s { interrupts = s.irq_disable_counter == 0 }
unfolding unlock_scheduler lock_scheduler
unlock_scheduler-lock_scheduler s h = ground arith

-- A lock that is taken and given back, with room in both counters and no switch put off before:
-- the counters are as they were; a call of `Schedule` between the two is made by `release_lock` if
-- no other lock is held, else it is put off further.
pub release_lock-acquire_lock :
    (s : Sched)
    → s.postpone_counter < 2 ^ 32 - 1
    → s.irq_disable_counter < 2 ^ 32 - 1
    → s.task_switches_postponed ≡ false
    → (release_lock (acquire_lock s) ≡ record s { interrupts = s.irq_disable_counter == 0 })
      × (release_lock (schedule (acquire_lock s)) ≡ (
          if s.postpone_counter == 0
          then unlock_scheduler (
              schedule
                (record s { interrupts = false; irq_disable_counter = s.irq_disable_counter + 1 }))
          else record s {
            interrupts = s.irq_disable_counter == 0;
            task_switches_postponed = true;
          }))
unfolding release_lock acquire_lock
release_lock-acquire_lock s h k clear =
    let locks : sub32 (u32 (s.postpone_counter + 1)) 1 ≡ s.postpone_counter = omega arith in
    let count : u32 (s.irq_disable_counter + 1) ≡ s.irq_disable_counter + 1 = omega arith in
    let put_off = (schedule_postponed 0 (acquire_lock s) (unfold acquire_lock in ground arith)).0 in
    (
      unfold unlock_scheduler in ground arith,
      rw put_off (elim (Bool-cases (s.postpone_counter == 0)) [
        | inl last ↦ rw (locks, count, last) (ap unlock_scheduler (ap schedule (ground arith)))
        | inr nested ↦ rw (locks, nested) (unfold unlock_scheduler in ground arith)
      ]),
    )
