-- ===== src/Sched/Lost.antt =====
-- What `Schedule` does to a list that runs empty: `g_last_ready` is left as it was, so the next
-- task that is put back is linked to a task that is not in the list any more.
use splongle_os.Base.{ℕ, ◌≡◌, ◌≢◌, arith, false, none, some, [], ◌∷◌}
use splongle_os.Sched.{
  Sched, running, ready_to_run, is_task, put_back, switch_to_task, schedule_first, schedule,
}
use splongle_os.Sched.Ready.{IsReady}
use splongle_os.Sched.Switch.{schedule_plain, schedule_idle}

-- `Schedule` with no switch postponed, a running task, and one other task ready, which is not the
-- idle task: it runs, and the task that ran is marked as ready to run but cannot be reached from
-- `g_first_ready`, which is NULL afterwards, though `g_last_ready` points to it.
pub schedule_loses_last :
    (t : ℕ) (s : Sched)
    → s.postpone_counter ≡ 0
    → IsReady s t []
    → is_task t s.idle_task ≡ false
    → (s.tasks s.current_task).state ≡ running
    → s.current_task ≢ t
    → let s' = schedule s in
      (s'.current_task ≡ t)
      × ((s'.tasks s.current_task).state ≡ ready_to_run)
      × (s'.first_ready ≡ none)
      × (s'.last_ready ≡ some s.current_task)
schedule_loses_last t s free ready plain runs other =
    rw (schedule_plain t s free ready.front plain)
      (unfold switch_to_task put_back in ground (arith, ready.back, ready.links))

-- The same fault behind the idle task: with the idle task and one other ready, the list is the idle
-- task alone afterwards, and the task that ran is in no list.
pub schedule_loses_behind_idle :
    (t u : ℕ) (s : Sched)
    → s.postpone_counter ≡ 0
    → IsReady s t (u ∷ [])
    → s.idle_task ≡ some t
    → (s.tasks s.current_task).state ≡ running
    → s.current_task ≢ t
    → s.current_task ≢ u
    → let s' = schedule s in
      (s'.current_task ≡ u)
      × ((s'.tasks s.current_task).state ≡ ready_to_run)
      × (s'.first_ready ≡ some t)
      × ((s'.tasks t).next ≡ none)
      × (s'.last_ready ≡ some s.current_task)
schedule_loses_behind_idle t u s free ready idle runs other other' =
    rw (schedule_idle t u s free ready.front idle ready.links.0)
      (unfold switch_to_task put_back in ground (arith, ready.back, ready.links, ready.distinct))

-- With the idle task alone in the list and another task running, `Schedule` drops the idle task
-- too, and from then on changes nothing.
pub schedule_drops_idle :
    (t : ℕ) (s : Sched)
    → s.postpone_counter ≡ 0
    → s.first_ready ≡ some t
    → (s.tasks t).next ≡ none
    → s.idle_task ≡ some t
    → (s.tasks s.current_task).state ≡ running
    → (schedule s ≡ record s { first_ready = none }) × (schedule (schedule s) ≡ schedule s)
unfolding schedule schedule_first
schedule_drops_idle t s free front alone idle runs =
    let first : schedule s ≡ record s { first_ready = none } = ground arith in
    (first, rw first (ground arith))
