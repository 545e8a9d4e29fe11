-- ===== src/Sched/Fair.antt =====
-- `Schedule` called again and again, with the idle task in front of the list as
-- `Multitasking_Init` leaves it.
use splongle_os.Base.{
  ℕ, zero, suc, ◌≤◌, ◌≡◌, sym, arith, some, List, [], ◌∷◌, ◌++◌, length, append_assoc,
  length-append, subst,
}
use splongle_os.Sched.{Sched, running, put_back, switch_to_task, schedule}
use splongle_os.Sched.Ready.{NotIn, IsReady, NotIn-snoc}
use splongle_os.Sched.Switch.{schedule_idle, schedule_skips_idle}

-- Task `c` runs, the idle task is the first of the ready list, and `q` are the others in order.
pub record IsTurn (s : Sched) (idle c : ℕ) (q : List ℕ) : Type 0 where
  pub free : s.postpone_counter ≡ 0
  pub ready : IsReady s idle q
  pub special : s.idle_task ≡ some idle
  pub current : s.current_task ≡ c
  pub now_running : (s.tasks c).state ≡ running
  pub out : NotIn c (idle ∷ q)

abbrev pub schedule_times : ℕ → Sched → Sched
schedule_times zero s = s
schedule_times (suc n) s = schedule_times n (schedule s)

-- What `Schedule` leaves alone when it skips the idle task.
schedule_idle-keeps :
    (t u : ℕ) (s : Sched)
    → s.postpone_counter ≡ 0
    → s.first_ready ≡ some t
    → s.idle_task ≡ some t
    → (s.tasks t).next ≡ some u
    → ((schedule s).postpone_counter ≡ 0) × ((schedule s).idle_task ≡ some t)
schedule_idle-keeps t u s free front idle link =
    rw (schedule_idle t u s free front idle link) (
      unfold switch_to_task put_back in ground arith,
      unfold switch_to_task put_back in ground arith,
    )

-- One turn: the first of the others runs, and the task that ran is put last.
pub schedule-IsTurn :
    (s : Sched) (idle c u : ℕ) (q : List ℕ)
    → IsTurn s idle c (u ∷ q)
    → 1 ≤ length q
    → IsTurn (schedule s) idle u (q ++ c ∷ [])
schedule-IsTurn s idle c u [] turn more = absurd (omega (arith, more))
schedule-IsTurn s idle c u (v ∷ q) turn more =
    let same = turn.current in
    let (list, w) =
      schedule_skips_idle idle u v q s turn.free turn.ready turn.special
        (ground (arith, same, turn.now_running))
        (subst (λ x. NotIn x (idle ∷ u ∷ v ∷ q)) (sym same) turn.out) in
    let (free, special) =
      schedule_idle-keeps idle u s turn.free turn.ready.front turn.special turn.ready.links.0 in
    record {
      free = free;
      ready = rw (sym same) list;
      special = special;
      current = w.current;
      now_running = w.now_running;
      out = (
        λ e. turn.ready.distinct.0.0 (sym e),
        NotIn-snoc u c (v ∷ q) turn.ready.distinct.1.0 (λ e. turn.out.1.0 (sym e)),
      );
    }

-- No ready task waits longer than the tasks before it: with no switch postponed, a running task,
-- and behind the idle task at least two others, `Schedule` called once more than there are tasks
-- in front of one of them runs it; those behind it keep their order, and behind them stand the
-- task that ran at first and then those that were in front.
pub schedule_times-IsTurn :
    (p r : List ℕ) (s : Sched) (idle c u : ℕ)
    → IsTurn s idle c (p ++ u ∷ r)
    → 2 ≤ length (p ++ u ∷ r)
    → IsTurn (schedule_times (suc (length p)) s) idle u (r ++ c ∷ p)
schedule_times-IsTurn [] r s idle c u turn more =
    schedule-IsTurn s idle c u r turn (omega (arith, more))
schedule_times-IsTurn (a ∷ p) r s idle c u turn more =
    let enough : 1 ≤ length (p ++ u ∷ r) = omega (arith, more) in
    let turn' : IsTurn (schedule s) idle a (p ++ u ∷ (r ++ c ∷ [])) =
      rw (sym (append_assoc p (u ∷ r) (c ∷ [])))
        (schedule-IsTurn s idle c a (p ++ u ∷ r) turn enough) in
    let longer : 2 ≤ length (p ++ u ∷ (r ++ c ∷ [])) = omega (
      arith,
      enough,
      length-append p (u ∷ r),
      length-append p (u ∷ (r ++ c ∷ [])),
      length-append r (c ∷ []),
    ) in
    rw (sym (append_assoc r (c ∷ []) (a ∷ p)))
      (schedule_times-IsTurn p (r ++ c ∷ []) (schedule s) idle a u turn' longer)
