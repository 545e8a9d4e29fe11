-- ===== src/Sched/Examples.antt =====
-- The claims about the tasks, on those of `Sched.Sample`.
use splongle_os.Base.{ℕ, ◌<◌, ◌≡◌, refl, arith, true, false, none, some, [], ◌∷◌, if◌then◌else◌}
use splongle_os.Sched.{
  find_slot, create_in_slot, Sched, ready_to_run, schedule, switch_to_task, create_kernel_task,
  lock_scheduler, unlock_scheduler, multitasking_init, block_task, unblock_task, acquire_lock,
  release_lock,
}
use splongle_os.Sched.Ready.{next_of, IsReady}
use splongle_os.Sched.Switch.{IsSwitched, schedule_skips_idle}
use splongle_os.Sched.Lost.{schedule_loses_last, schedule_drops_idle}
use splongle_os.Sched.Fair.{IsTurn, schedule_times, schedule_times-IsTurn}
use splongle_os.Sched.Start.{
  IsAdded, multitasking_init-IsTurn, create_kernel_task-IsTurn, shell_runs,
}
use splongle_os.Sched.Block.{IsBlocked, block_task-IsBlocked, unblock_task-IsTurn}
use splongle_os.Sched.Alone.{shell_alone, shell_alone_lem}
use splongle_os.Sched.Order.{Busy, Reach, here, next, create, turn, IsOrdered, Reach-IsOrdered}
use splongle_os.Sched.Stale.{unblock_task-block_task}
use splongle_os.Sched.Locks.{
  schedule_postponed, unlock_scheduler-lock_scheduler, release_lock-acquire_lock,
}
use splongle_os.Sched.Create.{in_stack, IsCreated, create_kernel_task_lem}
use splongle_os.Sched.Sample.{
  two_ready, one_ready, with_idle, two_ready-IsReady, one_ready-IsReady, with_idle-IsTurn,
}

schedule_skips_idle_example :
    IsReady (schedule with_idle) 1 (3 ∷ 4 ∷ 0 ∷ []) × IsSwitched with_idle (schedule with_idle) 2
schedule_skips_idle_example =
    schedule_skips_idle 1 2 3 (4 ∷ []) with_idle refl with_idle-IsTurn.ready refl refl
      (omega arith, (omega arith, (omega arith, (omega arith, tt))))

create_kernel_task_lem_example :
    let (slot, n) = create_kernel_task 0x10_2000 two_ready in
    (c : ℕ) × (slot ≡ some c)
    × (c < 16)
    × (two_ready.used c ≡ false)
    × IsReady n 1 (2 ∷ c ∷ [])
    × IsCreated two_ready n 0x10_2000 c
    × (n.memory 0x100 ≡ (if in_stack two_ready c 0x100 then n.memory 0x100 else 0))
create_kernel_task_lem_example =
    create_kernel_task_lem 0x10_2000 5 1 0x100 (2 ∷ []) two_ready two_ready-IsReady
      (refl, (refl, tt)) (omega arith) (omega arith) refl

schedule_loses_last_example :
    let s = schedule one_ready in
    (s.current_task ≡ 1)
    × ((s.tasks 0).state ≡ ready_to_run)
    × (s.first_ready ≡ none)
    × (s.last_ready ≡ some 0)
schedule_loses_last_example =
    schedule_loses_last 1 one_ready refl one_ready-IsReady refl refl (omega arith)

abbrev idle_only : Sched
idle_only = record one_ready { idle_task = some 1 }

schedule_drops_idle_example :
    (schedule idle_only ≡ record idle_only { first_ready = none })
    × (schedule (schedule idle_only) ≡ schedule idle_only)
schedule_drops_idle_example = schedule_drops_idle 1 idle_only refl refl refl refl refl

abbrev postponed : Sched
postponed = record two_ready { postpone_counter = 1 }

schedule_postponed_example :
    (schedule postponed ≡ record postponed { task_switches_postponed = true })
    × (switch_to_task 1 postponed ≡ record postponed { task_switches_postponed = true })
schedule_postponed_example = schedule_postponed 1 postponed (omega arith)

unlock_scheduler-lock_scheduler_example :
    unlock_scheduler (lock_scheduler two_ready) ≡ record two_ready { interrupts = true }
unlock_scheduler-lock_scheduler_example = unlock_scheduler-lock_scheduler two_ready (omega arith)

release_lock-acquire_lock_example :
    (release_lock (acquire_lock two_ready) ≡ record two_ready { interrupts = true })
    × (release_lock (schedule (acquire_lock two_ready))
        ≡ unlock_scheduler
            (schedule (record two_ready { interrupts = false; irq_disable_counter = 1 })))
release_lock-acquire_lock_example =
    release_lock-acquire_lock two_ready (omega arith) (omega arith) refl

schedule_times-IsTurn_example : IsTurn (schedule_times 3 with_idle) 1 4 (0 ∷ 2 ∷ 3 ∷ [])
schedule_times-IsTurn_example =
    schedule_times-IsTurn (2 ∷ 3 ∷ []) [] with_idle 1 0 4 with_idle-IsTurn (omega arith)

multitasking_init-IsTurn_example : IsTurn (multitasking_init 0x10_3000 two_ready) 1 0 []
multitasking_init-IsTurn_example = multitasking_init-IsTurn 0x10_3000 two_ready refl

create_kernel_task-IsTurn_example :
    IsAdded with_idle 1 0 (2 ∷ 3 ∷ 4 ∷ []) (create_kernel_task 0x10_2000 with_idle)
create_kernel_task-IsTurn_example =
    create_kernel_task-IsTurn 0x10_2000 5 1 0 (2 ∷ 3 ∷ 4 ∷ []) with_idle with_idle-IsTurn
      (refl, (refl, (refl, (refl, (refl, tt))))) (omega arith) (omega arith) refl

shell_runs_example :
    let (created, s2) = create_kernel_task 0x10_2000 (multitasking_init 0x10_3000 two_ready) in
    let s3 = schedule s2 in
    (created ≡ some 2)
    × (s3.current_task ≡ 2)
    × ((s3.tasks 2).entrypoint ≡ 0x10_2000)
    × (s3.cr3 ≡ 0x2000)
    × ((s3.tasks 0).state ≡ ready_to_run)
    × (s3.first_ready ≡ some 1)
    × ((s3.tasks 1).next ≡ none)
    × (s3.last_ready ≡ some 0)
shell_runs_example = shell_runs 0x10_3000 0x10_2000 two_ready refl

block_task-IsBlocked_example : IsBlocked with_idle (block_task 3 with_idle) 3 1 0 2 (3 ∷ 4 ∷ [])
block_task-IsBlocked_example =
    block_task-IsBlocked 3 1 0 2 (3 ∷ 4 ∷ []) with_idle with_idle-IsTurn (omega arith) (omega arith)
      (omega arith)

unblock_task-IsTurn_example : IsTurn (unblock_task 5 with_idle) 1 0 (2 ∷ 3 ∷ 4 ∷ 5 ∷ [])
unblock_task-IsTurn_example =
    unblock_task-IsTurn 5 1 0 (2 ∷ 3 ∷ 4 ∷ []) with_idle with_idle-IsTurn
      (omega arith, (omega arith, (omega arith, (omega arith, (omega arith, tt))))) refl

unblock_task-block_task_example :
    let n = unblock_task 2 (block_task 3 (schedule with_idle)) in
    (n.current_task ≡ 3)
    × (n.last_ready ≡ some 2)
    × (next_of n.tasks 0 ≡ some 2)
    × (next_of n.tasks 2 ≡ some 3)
unblock_task-block_task_example =
    unblock_task-block_task 3 1 0 2 3 4 [] with_idle with_idle-IsTurn (omega arith) (omega arith)

shell_alone_lem_example :
    let t = shell_alone 0x10_3000 0x10_2000 two_ready in
    ((schedule_times 7 t).current_task ≡ 2)
    × ((schedule_times 7 (create_kernel_task 0x10_4000 t).1).current_task ≡ 2)
shell_alone_lem_example = shell_alone_lem 0x10_3000 0x10_2000 0x10_4000 7 two_ready refl

-- Two tasks are created, and `Schedule` runs the first.
abbrev one_created : Sched
one_created = (create_kernel_task 0x10_2000 (multitasking_init 0x10_3000 two_ready)).1

abbrev two_created : Sched
two_created = (create_kernel_task 0x10_4000 one_created).1

two_created-Busy : Busy 1 two_created
unfolding multitasking_init create_kernel_task find_slot create_in_slot
two_created-Busy = (2, 3, refl, refl)

first_runs-Reach : Reach 1 (multitasking_init 0x10_3000 two_ready) (schedule two_created)
first_runs-Reach =
    next (next (next here (create 0x10_2000 refl)) (create 0x10_4000 refl))
      (turn two_created-Busy refl)

Reach-IsOrdered_example : IsOrdered 1 (schedule two_created)
Reach-IsOrdered_example =
    Reach-IsOrdered 0x10_3000 two_ready (schedule two_created) refl first_runs-Reach
