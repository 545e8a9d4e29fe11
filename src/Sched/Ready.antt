-- ===== src/Sched/Ready.antt =====
-- The list of ready tasks as the program sees it: a chain of pointers from `g_first_ready` to
-- `g_last_ready`.
use splongle_os.Base.{
  ℕ, ◌≡◌, ◌≢◌, refl, sym, arith, Option, none, some, List, [], ◌∷◌, ◌++◌, update,
}
use splongle_os.Sched.{Task, Sched}

abbrev pub next_of : (ℕ → Task) → ℕ → Option ℕ
next_of tasks t = (tasks t).next

abbrev pub NotIn : ℕ → List ℕ → Type 0
NotIn t [] = Unit {0}
NotIn t (u ∷ q) = (t ≢ u) × NotIn t q

abbrev pub Distinct : List ℕ → Type 0
Distinct [] = Unit {0}
Distinct (u ∷ q) = NotIn u q × Distinct q

-- The last task of a list that is not empty.
abbrev pub last_of : ℕ → List ℕ → ℕ
last_of t [] = t
last_of t (u ∷ q) = last_of u q

-- From `t` the pointers lead through `q`, and the last one is NULL.
abbrev pub Links : (ℕ → Option ℕ) → ℕ → List ℕ → Type 0
Links next t [] = next t ≡ none
Links next t (u ∷ q) = (next t ≡ some u) × Links next u q

-- The ready list is `t`, then `q`.
pub record IsReady (s : Sched) (t : ℕ) (q : List ℕ) : Type 0 where
  pub front : s.first_ready ≡ some t
  pub back : s.last_ready ≡ some (last_of t q)
  pub links : Links (next_of s.tasks) t q
  pub distinct : Distinct (t ∷ q)

pub Links-ext :
    (m n : ℕ → Option ℕ) (t : ℕ) (q : List ℕ) → ((a : ℕ) → m a ≡ n a) → Links m t q → Links n t q
Links-ext m n t [] h l = ground (arith, h t)
Links-ext m n t (u ∷ q) h l = (ground (arith, h t), Links-ext m n u q h l.1)

-- A change of the pointer of a task that is not in the list.
pub Links-update :
    (m : ℕ → Option ℕ) (c : ℕ) (v : Option ℕ) (t : ℕ) (q : List ℕ)
    → NotIn c (t ∷ q)
    → Links m t q
    → Links (update m c v) t q
Links-update m c v t [] out l = ground (arith, out.0)
Links-update m c v t (u ∷ q) out l = (ground (arith, out.0), Links-update m c v u q out.1 l.1)

pub last_of-ne : (c t : ℕ) (q : List ℕ) → NotIn c (t ∷ q) → c ≢ last_of t q
last_of-ne c t [] out = out.0
last_of-ne c t (u ∷ q) out = last_of-ne c u q out.1

-- A task that is not in the list is put behind its last task.
pub Links-snoc :
    (m : ℕ → Option ℕ) (c t : ℕ) (q : List ℕ)
    → NotIn c (t ∷ q)
    → Distinct (t ∷ q)
    → Links m t q
    → Links (update (update m (last_of t q) (some c)) c none) t (q ++ c ∷ [])
Links-snoc m c t [] out d l = (ground (arith, out.0), ground arith)
Links-snoc m c t (u ∷ q) out d l =
    (ground (arith, out.0, last_of-ne t u q d.0, l.0), Links-snoc m c u q out.1 d.1 l.1)

pub last_of-snoc : (c t : ℕ) (q : List ℕ) → last_of t (q ++ c ∷ []) ≡ c
last_of-snoc c t [] = refl
last_of-snoc c t (u ∷ q) = last_of-snoc c u q

pub NotIn-snoc : (a c : ℕ) (q : List ℕ) → NotIn a q → a ≢ c → NotIn a (q ++ c ∷ [])
NotIn-snoc a c [] h ne = (ne, tt)
NotIn-snoc a c (u ∷ q) h ne = (h.0, NotIn-snoc a c q h.1 ne)

pub Distinct-snoc : (c : ℕ) (q : List ℕ) → NotIn c q → Distinct q → Distinct (q ++ c ∷ [])
Distinct-snoc c [] out d = (tt, tt)
Distinct-snoc c (u ∷ q) out d =
    (NotIn-snoc u c q d.0 (λ e. out.0 (sym e)), Distinct-snoc c q out.1 d.1)
