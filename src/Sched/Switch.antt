-- ===== src/Sched/Switch.antt =====
-- `Schedule` with the idle task in front: the first of the others runs, and the task that ran becomes
-- the last one.
use splongle_os.Base.{
  ℕ, ◌+◌, ◌≡◌, ◌≢◌, refl, sym, arith, false, none, some, List, [], ◌∷◌, ◌++◌, u32, sub32, update,
}
use splongle_os.Sched.{
  Sched, running, ready_to_run, is_task, set_next, put_back, switch_to_task, schedule_first,
  schedule,
}
use splongle_os.Sched.Ready.{
  next_of, NotIn, last_of, IsReady, Links-ext, Links-update, Links-snoc, last_of-snoc,
  Distinct-snoc,
}

-- What the switch does to the processor and to the two tasks.
pub record IsSwitched (s t : Sched) (next : ℕ) : Type 0 where
  pub current : t.current_task ≡ next
  pub now_running : (t.tasks next).state ≡ running
  pub now_ready : (t.tasks s.current_task).state ≡ ready_to_run
  pub saved : (t.tasks s.current_task).esp ≡ sub32 s.esp 16
  pub stack : t.esp ≡ u32 ((s.tasks next).esp + 16)
  pub space : t.cr3 ≡ (s.tasks next).cr3

-- A switch away from a running task appends it to a ready list that is not empty.
switch_to_task_lem :
    (next t : ℕ) (q : List ℕ) (s : Sched)
    → s.postpone_counter ≡ 0
    → IsReady s t q
    → (s.tasks s.current_task).state ≡ running
    → NotIn s.current_task (t ∷ q)
    → next ≢ s.current_task
    → IsReady (switch_to_task next s) t (q ++ s.current_task ∷ [])
      × IsSwitched s (switch_to_task next s) next
unfolding switch_to_task put_back
switch_to_task_lem next t q s free ready runs out other =
    let c = s.current_task in
    let t' = switch_to_task next s in
    let m = next_of s.tasks in
    (
      record {
        front = ground (arith, ready.front, ready.back);
        back = ground (arith, ready.back, last_of-snoc c t q);
        links =
            Links-ext (update (update m (last_of t q) (some c)) c none) (next_of t'.tasks) t
              (q ++ c ∷ []) (λ a. ground (arith, ready.back))
              (Links-snoc m c t q out ready.distinct ready.links);
        distinct = Distinct-snoc c (t ∷ q) out ready.distinct;
      },
      record {
        current = ground arith;
        now_running = ground (arith, ready.back);
        now_ready = ground (arith, ready.back);
        saved = ground (arith, ready.back);
        stack = ground (arith, ready.back);
        space = ground (arith, ready.back);
      },
    )

pub schedule_plain :
    (t : ℕ) (s : Sched)
    → s.postpone_counter ≡ 0
    → s.first_ready ≡ some t
    → is_task t s.idle_task ≡ false
    → schedule s ≡ switch_to_task t (record s { first_ready = (s.tasks t).next })
unfolding schedule schedule_first
schedule_plain t s free front plain = ground arith

-- What `Schedule` hands to the switch when it skips the idle task `t` for `u`.
abbrev pub skipped : ℕ → ℕ → Sched → Sched
skipped t u s = record s { tasks = set_next t (s.tasks u).next s.tasks; first_ready = some t }

pub schedule_idle :
    (t u : ℕ) (s : Sched)
    → s.postpone_counter ≡ 0
    → s.first_ready ≡ some t
    → s.idle_task ≡ some t
    → (s.tasks t).next ≡ some u
    → schedule s ≡ switch_to_task u (skipped t u s)
unfolding schedule schedule_first
schedule_idle t u s free front idle link = ground arith

-- `Schedule` with no switch postponed, a running task that is not in the ready list, and the idle
-- task in front of at least two others: the first of the others runs, with its stack pointer and
-- its address space; the idle task stays in front, the rest keep their order, and the task that
-- ran is put last, marked as ready, with its stack pointer saved.
pub schedule_skips_idle :
    (t u v : ℕ) (q : List ℕ) (s : Sched)
    → s.postpone_counter ≡ 0
    → IsReady s t (u ∷ v ∷ q)
    → s.idle_task ≡ some t
    → (s.tasks s.current_task).state ≡ running
    → NotIn s.current_task (t ∷ u ∷ v ∷ q)
    → IsReady (schedule s) t (v ∷ q ++ s.current_task ∷ []) × IsSwitched s (schedule s) u
schedule_skips_idle t u v q s free ready idle runs out =
    let rest = skipped t u s in
    let m = next_of s.tasks in
    let after : IsReady rest t (v ∷ q) = record {
      front = refl;
      back = ready.back;
      links = (
        ground (arith, ready.links.1.0),
        Links-ext (update m t (m u)) (next_of rest.tasks) v q (λ a. ground arith)
            (Links-update m t (m u) v q ready.distinct.0.1 ready.links.1.1),
      );
      distinct = (ready.distinct.0.1, ready.distinct.1.1);
    } in
    let (list, w) =
      switch_to_task_lem u t (v ∷ q) rest free after (ground arith) (out.0, out.1.1)
        (λ e. out.1.0 (sym e)) in
    rw (schedule_idle t u s free ready.front idle ready.links.0) (
      list,
      record {
        current = w.current;
        now_running = w.now_running;
        now_ready = w.now_ready;
        saved = w.saved;
        stack = ground (arith, w.stack);
        space = ground (arith, w.space);
      },
    )
