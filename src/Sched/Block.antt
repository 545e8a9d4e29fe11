-- ===== src/Sched/Block.antt =====
-- `block_task` and `unblock_task`, with the idle task in front of the list.
use splongle_os.Base.{
  ℕ, ◌≤◌, ◌<◌, ◌≡◌, ◌≢◌, sym, ap, arith, none, some, List, [], ◌∷◌, ◌++◌, length, update, u8,
}
use splongle_os.Sched.{
  Sched, set_state, put_back, switch_to_task, lock_scheduler, unlock_scheduler, block_task,
  unblock_task,
}
use splongle_os.Sched.Ready.{
  next_of, NotIn, last_of, IsReady, Links-ext, Links-update, Links-snoc, last_of-ne, last_of-snoc,
  NotIn-snoc, Distinct-snoc,
}
use splongle_os.Sched.Switch.{skipped, schedule_idle}
use splongle_os.Sched.Fair.{IsTurn}

-- The state of `block_task` at its call of `Schedule`.
abbrev pub blocked : ℕ → Sched → Sched
blocked reason s =
    let t = lock_scheduler s in record t { tasks = set_state t.current_task (u8 reason) t.tasks }

pub block_task-switch :
    (reason t u : ℕ) (s : Sched)
    → s.postpone_counter ≡ 0
    → s.first_ready ≡ some t
    → s.idle_task ≡ some t
    → (s.tasks t).next ≡ some u
    → block_task reason s ≡ unlock_scheduler (switch_to_task u (skipped t u (blocked reason s)))
unfolding block_task lock_scheduler
block_task-switch reason t u s free front idle link =
    ap unlock_scheduler
      (schedule_idle t u (blocked reason s) free front idle (ground (arith, link)))

-- What `block_task` does: the first of the others runs, and the blocked task has its reason, keeps
-- its pointer and is not in the list.
pub record IsBlocked (s t : Sched) (reason idle c u : ℕ) (q : List ℕ) : Type 0 where
  pub turn : IsTurn t idle u q
  pub why : (t.tasks c).state ≡ reason
  pub out : NotIn c (u ∷ idle ∷ q)
  pub pointers : (a : ℕ) → a ≢ idle → next_of t.tasks a ≡ next_of s.tasks a

-- `block_task` for a reason other than running, below 256, with no switch postponed, a running
-- task, and behind the idle task at least two others: the first of the others runs, the rest keep
-- their order, the blocked task has its reason and is in no list, and no pointer but that of the
-- idle task changes.
pub block_task-IsBlocked :
    (reason idle c u : ℕ) (q : List ℕ) (s : Sched)
    → IsTurn s idle c (u ∷ q)
    → 1 ≤ length q
    → 1 ≤ reason
    → reason < 256
    → IsBlocked s (block_task reason s) reason idle c u q
unfolding switch_to_task put_back lock_scheduler unlock_scheduler
block_task-IsBlocked reason idle c u [] s turn more why byte = absurd (omega (arith, more))
block_task-IsBlocked reason idle c u (v ∷ q) s turn more why byte =
    let m = next_of s.tasks in
    let t = unlock_scheduler (switch_to_task u (skipped idle u (blocked reason s))) in
    let free = turn.free in
    let state : u8 reason ≡ reason = omega (arith, byte) in
    let same = turn.current in
    let last = turn.ready.back in
    let waiting : (t.tasks c).state ≡ reason = ground (arith, turn.out) in
    let pointers : (a : ℕ) → a ≢ idle → next_of t.tasks a ≡ m a = λ a ne. ground (arith, ne) in
    let head : next_of t.tasks idle ≡ some v = ground (arith, turn.ready.links.1.0) in
    let list : IsReady t idle (v ∷ q) = record {
      front = ground arith;
      back = ground arith;
      links = (
        head,
        Links-ext (update m idle (m u)) (next_of t.tasks) v q (λ a. ground arith)
            (Links-update m idle (m u) v q turn.ready.distinct.0.1 turn.ready.links.1.1),
      );
      distinct = (turn.ready.distinct.0.1, turn.ready.distinct.1.1);
    } in
    rw (block_task-switch reason idle u s free turn.ready.front turn.special turn.ready.links.0)
      record {
        turn = record {
          free = ground arith;
          ready = list;
          special = ground (arith, turn.special);
          current = ground arith;
          now_running = ground arith;
          out = ((λ e. turn.ready.distinct.0.0 (sym e)), turn.ready.distinct.1.0);
        };
        why = waiting;
        out = (turn.out.1.0, (turn.out.0, turn.out.1.1));
        pointers = pointers;
      }

-- `unblock_task` with the idle task first, another task than the idle one running, and a task that
-- is not in the list and whose pointer is NULL: it is put last.
pub unblock_task-IsTurn :
    (t idle c : ℕ) (q : List ℕ) (s : Sched)
    → IsTurn s idle c q
    → NotIn t (c ∷ idle ∷ q)
    → next_of s.tasks t ≡ none
    → IsTurn (unblock_task t s) idle c (q ++ t ∷ [])
unfolding unblock_task lock_scheduler unlock_scheduler
unblock_task-IsTurn t idle c q s turn out null =
    let m = next_of s.tasks in
    let n = unblock_task t s in
    let front = turn.ready.front in
    let special = turn.special in
    let back = turn.ready.back in
    let plain : s.current_task ≢ idle = ground (arith, turn.current, turn.out.0) in
    let differ = last_of-ne t idle q out.1 in
    let list : IsReady n idle (q ++ t ∷ []) = record {
      front = ground (arith, front);
      back = ground (arith, last_of-snoc t idle q);
      links =
          Links-ext (update (update m (last_of idle q) (some t)) t none) (next_of n.tasks) idle
            (q ++ t ∷ []) (λ a. ground (arith, null, differ, back))
            (Links-snoc m t idle q out.1 turn.ready.distinct turn.ready.links);
      distinct = Distinct-snoc t (idle ∷ q) out.1 turn.ready.distinct;
    } in
    record {
      free = ground (arith, turn.free);
      ready = list;
      special = ground (arith, special);
      current = ground (arith, turn.current);
      now_running = ground (arith, turn.now_running);
      out = (turn.out.0, NotIn-snoc c t q turn.out.1 (λ e. out.0 (sym e)));
    }
