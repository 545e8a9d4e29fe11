-- ===== src/Sched/Order.antt =====
-- The tasks as a system of steps, in any order: creation, `Schedule`, blocking and unblocking.
use splongle_os.Base.{
  ℕ, zero, suc, ◌+◌, ◌≤◌, ◌<◌, ◌≡◌, ◌≢◌, ◌⊎◌, fun_ext, refl, sym, arith, Bool, true, false,
  Bool-cases, inl, inr, none, some, Option-cases, List, [], ◌∷◌, ◌++◌, leb, subst,
}
use splongle_os.Sched.{
  Sched, find_slot, create_kernel_task, schedule, block_task, unblock_task, multitasking_init,
  create_in_slot, put_back, switch_to_task, lock_scheduler, unlock_scheduler,
}
use splongle_os.Sched.Ready.{next_of, NotIn, IsReady}
use splongle_os.Sched.Create.{AllUsed, used-NotIn}
use splongle_os.Sched.Switch.{schedule_idle}
use splongle_os.Sched.Fair.{IsTurn, schedule-IsTurn}
use splongle_os.Sched.Start.{
  create_in_slot-IsTurn, create_in_slot-AllUsed, AllUsed-snoc, multitasking_init-IsTurn,
  multitasking_init-used,
}
use splongle_os.Sched.Block.{block_task-IsBlocked, unblock_task-IsTurn, block_task-switch}

-- At least two tasks are ready behind the idle task.
abbrev pub Busy : ℕ → Sched → Type 0
Busy idle s = (u : ℕ) × (v : ℕ) × (next_of s.tasks idle ≡ some u) × (next_of s.tasks u ≡ some v)

-- `Schedule` and `block_task` run while two tasks are ready, and a task that is unblocked is in use,
-- does not run, is not in the list and has the pointer NULL.
pub data Step (idle : ℕ) (s t : Sched) : Type 0 where
  create : (entrypoint : ℕ) → t ≡ (create_kernel_task entrypoint s).1 → Step idle s t
  turn : Busy idle s → t ≡ schedule s → Step idle s t
  block :
      (reason : ℕ)
      → Busy idle s
      → 1 ≤ reason
      → reason < 256
      → t ≡ block_task reason s
      → Step idle s t
  unblock :
      (task : ℕ)
      → s.used task ≡ true
      → ((q : List ℕ) → IsReady s idle q → NotIn task (s.current_task ∷ idle ∷ q))
      → next_of s.tasks task ≡ none
      → t ≡ unblock_task task s
      → Step idle s t

pub data Reach (idle : ℕ) (s : Sched) : Sched → Type 0 where
  here : Reach idle s s
  next : {t u : Sched} → Reach idle s t → Step idle t u → Reach idle s u

-- A task runs, the ready list begins with the idle task, leads through distinct tasks that are in
-- use and ends in NULL, and the running task is not in it.
abbrev pub IsOrdered : ℕ → Sched → Type 0
IsOrdered idle s = (c : ℕ) × (q : List ℕ) × IsTurn s idle c q × AllUsed s.used (c ∷ idle ∷ q)

-- What the list is when two tasks are ready.
Busy-cases :
    (idle c : ℕ) (q : List ℕ) (s : Sched)
    → Busy idle s
    → IsTurn s idle c q
    → (u : ℕ) × (v : ℕ) × (r : List ℕ) × (q ≡ u ∷ v ∷ r)
Busy-cases idle c [] s (u, v, one, two) t = ground (arith, t.ready.links)
Busy-cases idle c (a ∷ []) s (u, v, one, two) t = ground (arith, t.ready.links)
Busy-cases idle c (a ∷ b ∷ r) s busy t = (a, b, r, refl)

find_slot-free :
    (rounds i k : ℕ) (used : ℕ → Bool) → find_slot rounds i used ≡ some k → used k ≡ false
unfolding find_slot
find_slot-free zero i k used e = ground arith
find_slot-free (suc rounds) i k used e = ground (arith, find_slot-free rounds (i + 1) k used)

-- Either nothing is created, or a task in a slot that was free.
create_kernel_task-cases :
    (entrypoint : ℕ) (s : Sched)
    → (create_kernel_task entrypoint s ≡ (none, s))
      ⊎ ((slot : ℕ) × (s.used slot ≡ false)
          × (create_kernel_task entrypoint s ≡ (some slot, create_in_slot entrypoint slot s)))
unfolding create_kernel_task
create_kernel_task-cases entrypoint s = elim (Bool-cases (leb 16 s.num_tasks)) [
  | inl full ↦ inl (rw full refl)
  | inr room ↦ elim (Option-cases (find_slot 16 0 s.used)) [
    | inl missing ↦ inl (rw (room, missing) refl)
    | inr (slot, found) ↦ inr (slot, find_slot-free 16 0 slot s.used found, rw (room, found) refl)
  ]
]

create-IsOrdered :
    (entrypoint idle : ℕ) (s : Sched)
    → IsOrdered idle s
    → IsOrdered idle (create_kernel_task entrypoint s).1
create-IsOrdered entrypoint idle s (c, q, t, all) = elim (create_kernel_task-cases entrypoint s) [
  | inl e ↦ subst (λ p. IsOrdered idle p.1) (sym e) (c, q, t, all)
  | inr (slot, was_free, e) ↦
      let out = used-NotIn s.used slot (c ∷ idle ∷ q) was_free all in
      subst (λ p. IsOrdered idle p.1) (sym e)
        (
          c,
          q ++ slot ∷ [],
          create_in_slot-IsTurn entrypoint slot idle c q s t out,
          create_in_slot-AllUsed entrypoint slot idle c q s t all,
        )
]

schedule-used :
    (idle c u : ℕ) (q : List ℕ) (s : Sched) → IsTurn s idle c (u ∷ q) → (schedule s).used ≡ s.used
unfolding switch_to_task put_back
schedule-used idle c u q s t =
    rw (schedule_idle idle u s t.free t.ready.front t.special t.ready.links.0)
      (fun_ext λ i. ground (arith, t.free, t.ready.back))

turn-IsOrdered :
    (idle : ℕ) (s : Sched) → Busy idle s → IsOrdered idle s → IsOrdered idle (schedule s)
turn-IsOrdered idle s busy (c, q, t, all) =
    let (u, v, r, e) = Busy-cases idle c q s busy t in
    let t' : IsTurn s idle c (u ∷ v ∷ r) = subst (λ l. IsTurn s idle c l) e t in
    let all' : AllUsed s.used (c ∷ idle ∷ u ∷ v ∷ r) =
      subst (λ l. AllUsed s.used (c ∷ idle ∷ l)) e all in
    (
      u,
      v ∷ r ++ c ∷ [],
      schedule-IsTurn s idle c u (v ∷ r) t' (omega arith),
      subst (λ w. AllUsed w (u ∷ idle ∷ (v ∷ r ++ c ∷ [])))
          (sym (schedule-used idle c u (v ∷ r) s t'))
          (all'.1.1.0, (all'.1.0, AllUsed-snoc s.used c (v ∷ r) all'.1.1.1 all'.0)),
    )

block_task-used :
    (reason idle c u : ℕ) (q : List ℕ) (s : Sched)
    → IsTurn s idle c (u ∷ q)
    → (block_task reason s).used ≡ s.used
unfolding switch_to_task put_back lock_scheduler unlock_scheduler
block_task-used reason idle c u q s t =
    rw (block_task-switch reason idle u s t.free t.ready.front t.special t.ready.links.0)
      (fun_ext λ i. ground (arith, t.free, t.ready.back))

block-IsOrdered :
    (reason idle : ℕ) (s : Sched)
    → Busy idle s
    → 1 ≤ reason
    → reason < 256
    → IsOrdered idle s
    → IsOrdered idle (block_task reason s)
block-IsOrdered reason idle s busy h k (c, q, t, all) =
    let (u, v, r, e) = Busy-cases idle c q s busy t in
    let t' : IsTurn s idle c (u ∷ v ∷ r) = subst (λ l. IsTurn s idle c l) e t in
    let all' : AllUsed s.used (c ∷ idle ∷ u ∷ v ∷ r) =
      subst (λ l. AllUsed s.used (c ∷ idle ∷ l)) e all in
    let b = block_task-IsBlocked reason idle c u (v ∷ r) s t' (omega arith) h k in
    (
      u,
      v ∷ r,
      b.turn,
      subst (λ w. AllUsed w (u ∷ idle ∷ v ∷ r)) (sym (block_task-used reason idle c u (v ∷ r) s t'))
          (all'.1.1.0, (all'.1.0, all'.1.1.1)),
    )

unblock_task-used :
    (task idle c : ℕ) (q : List ℕ) (s : Sched)
    → IsTurn s idle c q
    → (unblock_task task s).used ≡ s.used
unfolding unblock_task lock_scheduler unlock_scheduler
unblock_task-used task idle c q s t =
    let plain : s.current_task ≢ idle = ground (arith, t.current, t.out.0) in
    fun_ext λ i. ground (arith, t.ready.front, t.ready.back, t.special)

unblock-IsOrdered :
    (task idle : ℕ) (s : Sched)
    → s.used task ≡ true
    → ((q : List ℕ) → IsReady s idle q → NotIn task (s.current_task ∷ idle ∷ q))
    → next_of s.tasks task ≡ none
    → IsOrdered idle s
    → IsOrdered idle (unblock_task task s)
unblock-IsOrdered task idle s in_use out null (c, q, t, all) =
    let out' = subst (λ a. NotIn task (a ∷ idle ∷ q)) t.current (out q t.ready) in
    (
      c,
      q ++ task ∷ [],
      unblock_task-IsTurn task idle c q s t out' null,
      subst (λ w. AllUsed w (c ∷ idle ∷ (q ++ task ∷ [])))
          (sym (unblock_task-used task idle c q s t))
          (AllUsed-snoc s.used task (c ∷ idle ∷ q) all in_use),
    )

Step-IsOrdered : {idle : ℕ} {s t : Sched} → Step idle s t → IsOrdered idle s → IsOrdered idle t
Step-IsOrdered {idle} {s} {t} (create entrypoint e) w =
    subst (IsOrdered idle) (sym e) (create-IsOrdered entrypoint idle s w)
Step-IsOrdered {idle} {s} {t} (turn busy e) w =
    subst (IsOrdered idle) (sym e) (turn-IsOrdered idle s busy w)
Step-IsOrdered {idle} {s} {t} (block reason busy h k e) w =
    subst (IsOrdered idle) (sym e) (block-IsOrdered reason idle s busy h k w)
Step-IsOrdered {idle} {s} {t} (unblock task in_use out null e) w =
    subst (IsOrdered idle) (sym e) (unblock-IsOrdered task idle s in_use out null w)

-- From `Multitasking_Init` with no switch postponed, through tasks that are created, calls of
-- `Schedule` and of `block_task` while two tasks are ready behind the idle task, and tasks
-- unblocked that are in use, neither run nor are ready, and have the pointer NULL, in any order: a
-- task is marked as running, the ready list begins with the idle task, leads through distinct
-- tasks in use to NULL at `g_last_ready`, and the running task is not in it.
pub Reach-IsOrdered :
    (idle : ℕ) (s t : Sched)
    → s.postpone_counter ≡ 0
    → Reach 1 (multitasking_init idle s) t
    → IsOrdered 1 t
Reach-IsOrdered idle s t free here =
    (0, [], multitasking_init-IsTurn idle s free, multitasking_init-used idle s)
Reach-IsOrdered idle s t free (next {t = u} before step) =
    Step-IsOrdered step (Reach-IsOrdered idle s u free before)
