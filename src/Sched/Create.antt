-- ===== src/Sched/Create.antt =====
-- `create_kernel_task`: the slot, the stack and the place in the ready list of a new task.
use splongle_os.Base.{
  ℕ, zero, suc, ◌+◌, ◌*◌, ◌≤◌, ◌<◌, ◌≡◌, ◌≢◌, ◌⊎◌, inl, inr, refl, arith, Bool, true, false,
  Bool-cases, none, some, List, [], ◌∷◌, ◌++◌, ltb, leb, ◌&&◌, if◌then◌else◌, update,
}
use splongle_os.Sched.{
  Sched, ready_to_run, kstack_size, find_slot, push_frame, create_in_slot, create_kernel_task,
}
use splongle_os.Sched.Ready.{
  next_of, NotIn, last_of, IsReady, Links-ext, Links-snoc, last_of-ne, last_of-snoc, Distinct-snoc,
}

abbrev pub AllUsed : (ℕ → Bool) → List ℕ → Type 0
AllUsed used [] = Unit {0}
AllUsed used (t ∷ q) = (used t ≡ true) × AllUsed used q

pub find_slot_lem :
    (rounds i free : ℕ) (used : ℕ → Bool)
    → i ≤ free
    → free < i + rounds
    → used free ≡ false
    → (k : ℕ) × (find_slot rounds i used ≡ some k) × (k < i + rounds) × (used k ≡ false)
unfolding find_slot
find_slot_lem zero i free used h k e = absurd (omega (arith, h, k))
find_slot_lem (suc rounds) i free used h k e = elim (Bool-cases (used i)) [
  | inl busy ↦
      let later : i ≢ free = λ same. ground (arith, busy, e, same) in
      let (j, at, inside, was_free) =
        find_slot_lem rounds (i + 1) free used (omega (arith, h, later)) (omega (arith, k)) e in
      (j, rw busy at, omega (arith, inside), was_free)
  | inr idle ↦ (i, rw idle refl, omega arith, idle)
]

pub used-NotIn :
    (used : ℕ → Bool) (c : ℕ) (q : List ℕ) → used c ≡ false → AllUsed used q → NotIn c q
used-NotIn used c [] e all = tt
used-NotIn used c (t ∷ q) e all =
    ((λ same. ground (arith, all.0, e, same)), used-NotIn used c q e all.1)

-- The new task: it is ready, and its stack holds what `switch_to_task` pops, four registers and
-- the address at which the task starts.
pub record IsCreated (s n : Sched) (entrypoint slot : ℕ) : Type 0 where
  pub now_used : n.used slot ≡ true
  pub now_ready : (n.tasks slot).state ≡ ready_to_run
  pub start : n.memory ((n.tasks slot).esp + 16) ≡ entrypoint
  pub inside : s.kernel_stacks + slot * kstack_size ≤ (n.tasks slot).esp
  pub top : (n.tasks slot).esp + 20 ≡ s.kernel_stacks + (slot + 1) * kstack_size
  pub counted : n.num_tasks ≡ s.num_tasks + 1

pub create_in_slot-IsReady :
    (entrypoint c t : ℕ) (q : List ℕ) (s : Sched)
    → IsReady s t q
    → NotIn c (t ∷ q)
    → IsReady (create_in_slot entrypoint c s) t (q ++ c ∷ [])
unfolding create_in_slot
create_in_slot-IsReady entrypoint c t q s ready out =
    let n = create_in_slot entrypoint c s in
    let m = next_of s.tasks in
    record {
      front = ground (arith, ready.front, ready.back);
      back = ground (arith, ready.back, last_of-snoc c t q);
      links =
          Links-ext (update (update m (last_of t q) (some c)) c none) (next_of n.tasks) t
            (q ++ c ∷ []) (λ a. ground (arith, ready.back, last_of-ne c t q out))
            (Links-snoc m c t q out ready.distinct ready.links);
      distinct = Distinct-snoc c (t ∷ q) out ready.distinct;
    }

create_in_slot-IsCreated :
    (entrypoint c t : ℕ) (q : List ℕ) (s : Sched)
    → IsReady s t q
    → NotIn c (t ∷ q)
    → s.num_tasks < 16
    → IsCreated s (create_in_slot entrypoint c s) entrypoint c
unfolding create_in_slot push_frame
create_in_slot-IsCreated entrypoint c t q s ready out h =
    let differ = last_of-ne c t q out in
    record {
      now_used = ground (arith, ready.back);
      now_ready = ground (arith, ready.back, differ);
      start = ground (arith, ready.back, differ);
      inside = ground (arith, ready.back, differ);
      top = ground (arith, ready.back, differ);
      counted = ground (arith, ready.back, h);
    }

create_in_slot-memory :
    (entrypoint c t a : ℕ) (q : List ℕ) (s : Sched)
    → IsReady s t q
    → ((a < s.kernel_stacks + c * kstack_size) ⊎ (s.kernel_stacks + (c + 1) * kstack_size ≤ a))
    → (create_in_slot entrypoint c s).memory a ≡ s.memory a
unfolding create_in_slot push_frame
create_in_slot-memory entrypoint c t a q s ready out = ground (arith, ready.back, out)

-- The addresses of the stack of a slot.
abbrev pub in_stack : Sched → ℕ → ℕ → Bool
in_stack s slot a =
    leb (s.kernel_stacks + slot * kstack_size) a
    && ltb a (s.kernel_stacks + (slot + 1) * kstack_size)

-- `create_kernel_task` where the ready list is not empty, its tasks are used, and a slot is free
-- with fewer than 16 tasks: the task gets a slot that was not used, is put behind the last ready
-- task, and has at the top of its own stack the four registers and the entry point that the first
-- switch to it pops; memory outside that stack is as it was.
pub create_kernel_task_lem :
    (entrypoint free t a : ℕ) (q : List ℕ) (s : Sched)
    → IsReady s t q
    → AllUsed s.used (t ∷ q)
    → s.num_tasks < 16
    → free < 16
    → s.used free ≡ false
    → let (slot, n) = create_kernel_task entrypoint s in
      (c : ℕ) × (slot ≡ some c)
      × (c < 16)
      × (s.used c ≡ false)
      × IsReady n t (q ++ c ∷ [])
      × IsCreated s n entrypoint c
      × (n.memory a ≡ (if in_stack s c a then n.memory a else s.memory a))
unfolding create_kernel_task
create_kernel_task_lem entrypoint free t a q s ready all h k e =
    let (c, found, inside, was_free) = find_slot_lem 16 0 free s.used (omega arith) k e in
    let out = used-NotIn s.used c (t ∷ q) was_free all in
    let room : leb 16 s.num_tasks ≡ false = ground (arith, h) in
    let n = create_in_slot entrypoint c s in
    let memory : n.memory a ≡ (if in_stack s c a then n.memory a else s.memory a) =
      elim (Bool-cases (in_stack s c a)) [
        | inl e ↦ rw e refl
        | inr e ↦ rw e (create_in_slot-memory entrypoint c t a q s ready (ground arith))
      ] in
    rw (room, found)
      (
        c,
        refl,
        inside,
        was_free,
        create_in_slot-IsReady entrypoint c t q s ready out,
        create_in_slot-IsCreated entrypoint c t q s ready out h,
        memory,
      )
