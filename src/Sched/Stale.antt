-- ===== src/Sched/Stale.antt =====
-- The pointer of a task that blocks: `Schedule` leaves it as it was in the list, `unblock_task` does
-- not set it to NULL.
use splongle_os.Base.{ℕ, ◌≤◌, ◌<◌, ◌≡◌, ◌≢◌, arith, some, List, ◌∷◌, ◌++◌, [], ◌∙◌}
use splongle_os.Sched.{
  Sched, put_back, switch_to_task, lock_scheduler, unlock_scheduler, schedule, block_task,
  unblock_task,
}
use splongle_os.Sched.Ready.{next_of, NotIn, last_of, last_of-ne}
use splongle_os.Sched.Switch.{schedule_idle}
use splongle_os.Sched.Fair.{IsTurn, schedule-IsTurn}
use splongle_os.Sched.Block.{block_task-IsBlocked}

-- A task that `Schedule` runs keeps its pointer to the one that was behind it.
schedule-next :
    (s : Sched) (idle c u v : ℕ) (q : List ℕ)
    → IsTurn s idle c (u ∷ v ∷ q)
    → next_of (schedule s).tasks u ≡ some v
unfolding switch_to_task put_back
schedule-next s idle c u v q turn =
    let free = turn.free in
    let differ : u ≢ last_of v q = last_of-ne u v q turn.ready.distinct.1.0 in
    rw (schedule_idle idle u s free turn.ready.front turn.special turn.ready.links.0) (
      ground
        (arith, turn.ready.back, turn.out, turn.ready.distinct, turn.ready.links, turn.current))

-- The pointers after `unblock_task`: it writes that of the last task only.
unblock_task-next :
    (t idle c : ℕ) (q : List ℕ) (s : Sched)
    → IsTurn s idle c q
    → NotIn t (c ∷ idle ∷ q)
    → let n = unblock_task t s in
      (n.last_ready ≡ some t)
      × (next_of n.tasks (last_of idle q) ≡ some t)
      × (next_of n.tasks t ≡ next_of s.tasks t)
      × (n.current_task ≡ c)
unfolding unblock_task lock_scheduler unlock_scheduler
unblock_task-next t idle c q s turn out =
    let front = turn.ready.front in
    let special = turn.special in
    let back = turn.ready.back in
    let plain : s.current_task ≢ idle = ground (arith, turn.current, turn.out.0) in
    let differ = last_of-ne t idle q out.1 in
    (ground arith, ground arith, ground arith, ground (arith, turn.current))

-- With no switch postponed, a running task, and behind the idle task at least three others:
-- `Schedule` runs the first, which blocks for a reason other than running, below 256, so that the
-- second runs; `unblock_task` then puts the first behind the last ready task, but its pointer
-- leads to the second, which runs and is not ready, where the list should end.
pub unblock_task-block_task :
    (reason idle c u v w : ℕ) (q : List ℕ) (s : Sched)
    → IsTurn s idle c (u ∷ v ∷ w ∷ q)
    → 1 ≤ reason
    → reason < 256
    → let n = unblock_task u (block_task reason (schedule s)) in
      (n.current_task ≡ v)
      × (n.last_ready ≡ some u)
      × (next_of n.tasks (last_of w (q ++ c ∷ [])) ≡ some u)
      × (next_of n.tasks u ≡ some v)
unblock_task-block_task reason idle c u v w q s turn why byte =
    let ran = schedule-IsTurn s idle c u (v ∷ w ∷ q) turn (omega arith) in
    let b =
      block_task-IsBlocked reason idle u v (w ∷ q ++ c ∷ []) (schedule s) ran (omega arith) why
        byte in
    let (last, link, kept, current) =
      unblock_task-next u idle v (w ∷ q ++ c ∷ []) (block_task reason (schedule s)) b.turn b.out in
    (current, last, link, kept ∙ b.pointers u ran.out.0 ∙ schedule-next s idle c u v (w ∷ q) turn)
