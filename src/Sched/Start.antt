-- ===== src/Sched/Start.antt =====
-- What `Multitasking_Init` sets up, and how `create_kernel_task` adds to it.
use splongle_os.Base.{
  ℕ, ◌<◌, ◌≡◌, refl, sym, arith, Bool, true, false, Option, none, some, List, [], ◌∷◌, ◌++◌, leb,
  update, subst,
}
use splongle_os.Sched.{
  Sched, ready_to_run, find_slot, create_in_slot, create_kernel_task, multitasking_init, schedule,
  schedule_first, switch_to_task, put_back,
}
use splongle_os.Sched.Ready.{NotIn, NotIn-snoc}
use splongle_os.Sched.Create.{AllUsed, find_slot_lem, used-NotIn, create_in_slot-IsReady}
use splongle_os.Sched.Fair.{IsTurn}

-- `Multitasking_Init`: the main task, slot 0, runs, and the idle task, slot 1, is the ready list.
pub multitasking_init-IsTurn :
    (idle : ℕ) (s : Sched) → s.postpone_counter ≡ 0 → IsTurn (multitasking_init idle s) 1 0 []
unfolding multitasking_init create_kernel_task find_slot create_in_slot
multitasking_init-IsTurn idle s free = record {
  free = free;
  ready = record { front = refl; back = refl; links = refl; distinct = (tt, tt) };
  special = refl;
  current = refl;
  now_running = refl;
  out = (omega arith, tt);
}

pub multitasking_init-used :
    (idle : ℕ) (s : Sched) → AllUsed (multitasking_init idle s).used (0 ∷ 1 ∷ [])
unfolding multitasking_init create_kernel_task find_slot create_in_slot
multitasking_init-used idle s = (refl, (refl, tt))

pub create_in_slot-IsTurn :
    (entrypoint slot idle c : ℕ) (q : List ℕ) (s : Sched)
    → IsTurn s idle c q
    → NotIn slot (c ∷ idle ∷ q)
    → IsTurn (create_in_slot entrypoint slot s) idle c (q ++ slot ∷ [])
unfolding create_in_slot
create_in_slot-IsTurn entrypoint slot idle c q s turn out = record {
  free = ground (arith, turn.free, turn.ready.back);
  ready = create_in_slot-IsReady entrypoint slot idle q s turn.ready out.1;
  special = ground (arith, turn.special, turn.ready.back);
  current = ground (arith, turn.current, turn.ready.back);
  now_running = ground (arith, turn.now_running, turn.ready.back, out.0);
  out = (turn.out.0, NotIn-snoc c slot q turn.out.1 (λ e. out.0 (sym e)));
}

AllUsed-update :
    (used : ℕ → Bool) (slot : ℕ) (q : List ℕ) → AllUsed used q → AllUsed (update used slot true) q
AllUsed-update used slot [] all = tt
AllUsed-update used slot (u ∷ q) all = (ground (arith, all.0), AllUsed-update used slot q all.1)

pub AllUsed-snoc :
    (used : ℕ → Bool) (slot : ℕ) (q : List ℕ)
    → AllUsed used q
    → used slot ≡ true
    → AllUsed used (q ++ slot ∷ [])
AllUsed-snoc used slot [] all e = (e, tt)
AllUsed-snoc used slot (u ∷ q) all e = (all.0, AllUsed-snoc used slot q all.1 e)

pub AllUsed-ext :
    (used used' : ℕ → Bool) (q : List ℕ)
    → ((t : ℕ) → used t ≡ used' t)
    → AllUsed used q
    → AllUsed used' q
AllUsed-ext used used' [] same all = tt
AllUsed-ext used used' (u ∷ q) same all =
    (ground (arith, same u, all.0), AllUsed-ext used used' q same all.1)

pub create_in_slot-AllUsed :
    (entrypoint slot idle c : ℕ) (q : List ℕ) (s : Sched)
    → IsTurn s idle c q
    → AllUsed s.used (c ∷ idle ∷ q)
    → AllUsed (create_in_slot entrypoint slot s).used (c ∷ idle ∷ (q ++ slot ∷ []))
unfolding create_in_slot
create_in_slot-AllUsed entrypoint slot idle c q s turn all =
    let used' = update s.used slot true in
    AllUsed-ext used' (create_in_slot entrypoint slot s).used (c ∷ idle ∷ (q ++ slot ∷ []))
      (λ t. ground (arith, turn.ready.back))
      (AllUsed-snoc used' slot (c ∷ idle ∷ q) (AllUsed-update s.used slot (c ∷ idle ∷ q) all)
        (ground arith))

-- The promise of a created task: it is put last, and its slot was free.
abbrev pub IsAdded : Sched → ℕ → ℕ → List ℕ → Option ℕ × Sched → Type 0
IsAdded s idle c q (created, n) =
    (slot : ℕ) × (created ≡ some slot)
    × (s.used slot ≡ false)
    × IsTurn n idle c (q ++ slot ∷ [])
    × AllUsed n.used (c ∷ idle ∷ (q ++ slot ∷ []))

pub create_kernel_task-IsTurn :
    (entrypoint free idle c : ℕ) (q : List ℕ) (s : Sched)
    → IsTurn s idle c q
    → AllUsed s.used (c ∷ idle ∷ q)
    → s.num_tasks < 16
    → free < 16
    → s.used free ≡ false
    → IsAdded s idle c q (create_kernel_task entrypoint s)
unfolding create_kernel_task
create_kernel_task-IsTurn entrypoint free idle c q s turn all h k e =
    let (slot, found, inside, was_free) = find_slot_lem 16 0 free s.used (omega arith) k e in
    let out = used-NotIn s.used slot (c ∷ idle ∷ q) was_free all in
    let room : leb 16 s.num_tasks ≡ false = ground (arith, h) in
    let created : create_kernel_task entrypoint s ≡ (some slot, create_in_slot entrypoint slot s) =
      rw (room, found) refl in
    subst (IsAdded s idle c q) (sym created) (
      slot,
      refl,
      was_free,
      create_in_slot-IsTurn entrypoint slot idle c q s turn out,
      create_in_slot-AllUsed entrypoint slot idle c q s turn all,
    )

-- The start of the kernel: the shell is the only task that is created, and the first `Schedule` of
-- `kernel_main` runs it.
pub shell_runs :
    (idle shell : ℕ) (s : Sched)
    → s.postpone_counter ≡ 0
    → let (created, s2) = create_kernel_task shell (multitasking_init idle s) in
      let s3 = schedule s2 in
      (created ≡ some 2)
      × (s3.current_task ≡ 2)
      × ((s3.tasks 2).entrypoint ≡ shell)
      × (s3.cr3 ≡ s.cr3)
      × ((s3.tasks 0).state ≡ ready_to_run)
      × (s3.first_ready ≡ some 1)
      × ((s3.tasks 1).next ≡ none)
      × (s3.last_ready ≡ some 0)
unfolding multitasking_init create_kernel_task find_slot create_in_slot schedule schedule_first
    switch_to_task put_back
shell_runs idle shell s free = ground arith
