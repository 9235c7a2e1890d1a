-- ===== src/Process/Listed.antt =====
-- What holds of the process list of src/process/process.c between two calls: the newest process comes
-- first, so that the pids fall along the list, no process on it is stopped, and each knows its node.
use mathlib.Core.Path.{sym, subst}
use sector_os_re.Base.{
  refl, sym, inr, ◌∙◌, ◌==◌, inl, arith, ◌⊎◌, Bool-cases, [], ◌<◌, ◌∷◌, ◌≤◌, ◌≢◌, update, List, ◌≡◌,
  ℕ,
}
use sector_os_re.Process.{task_stopped, Entry, Pcb}

abbrev pub Holds : ℕ → List Entry → Type 0
Holds a [] = ⊥
Holds a (t ∷ rest) = (t.pcb ≡ a) ⊎ Holds a rest

-- No node of the list is `node`.
abbrev pub Without : ℕ → List Entry → Type 0
Without node [] = Unit
Without node (t ∷ rest) = (t.node ≢ node) × Without node rest

pub record IsEntry (pcbs : ℕ → Pcb) (top : ℕ) (t : Entry) : Type 0 where
  pub pid_below : (pcbs t.pcb).pid < top
  pub not_stopped : (pcbs t.pcb).state ≢ task_stopped
  pub knows_node : (pcbs t.pcb).self ≡ t.node

abbrev pub IsListed : (ℕ → Pcb) → ℕ → List Entry → Type 0
IsListed pcbs top [] = Unit
IsListed pcbs top (t ∷ rest) =
    IsEntry pcbs top t × Without t.node rest × IsListed pcbs (pcbs t.pcb).pid rest

-- What the list's predicate reads of a control block.
abbrev pub SameEntry : Pcb → Pcb → Type 0
SameEntry p q = (p.pid ≡ q.pid) × (p.state ≡ q.state) × (p.self ≡ q.self)

pub IsListed-same :
    (pcbs pcbs' : ℕ → Pcb) (top : ℕ) (es : List Entry)
    → ((a : ℕ) → Holds a es → SameEntry (pcbs a) (pcbs' a))
    → IsListed pcbs top es
    → IsListed pcbs' top es
IsListed-same pcbs pcbs' top [] same listed = tt
IsListed-same pcbs pcbs' top (t ∷ rest) same (entry, lone, listed) =
    let (same_pid, same_state, same_self) = same t.pcb (inl refl) in
    (
      record {
        pid_below = omega (arith, same_pid, entry.pid_below);
        not_stopped = λ stopped. entry.not_stopped (same_state ∙ stopped);
        knows_node = sym same_self ∙ entry.knows_node;
      },
      lone,
      subst (λ below. IsListed pcbs' below rest) same_pid
          (IsListed-same pcbs pcbs' (pcbs t.pcb).pid rest (λ a held. same a (inr held)) listed),
    )

pub IsListed-wider :
    (pcbs : ℕ → Pcb) (low top : ℕ) (es : List Entry)
    → low ≤ top
    → IsListed pcbs low es
    → IsListed pcbs top es
IsListed-wider pcbs low top [] le listed = tt
IsListed-wider pcbs low top (t ∷ rest) le (entry, lone, listed) = (
  record {
    pid_below = omega (arith, entry.pid_below);
    not_stopped = entry.not_stopped;
    knows_node = entry.knows_node;
  },
  lone,
  listed,
)

pub held_pid :
    (pcbs : ℕ → Pcb) (top : ℕ) (es : List Entry) (a : ℕ)
    → IsListed pcbs top es
    → Holds a es
    → (pcbs a).pid < top
held_pid pcbs top [] a listed held = absurd held
held_pid pcbs top (t ∷ rest) a (entry, lone, listed) (inl here) = rw (← here) entry.pid_below
held_pid pcbs top (t ∷ rest) a (entry, lone, listed) (inr held) =
    omega (arith, entry.pid_below, held_pid pcbs (pcbs t.pcb).pid rest a listed held)

pub held_not_stopped :
    (pcbs : ℕ → Pcb) (top : ℕ) (es : List Entry) (a : ℕ)
    → IsListed pcbs top es
    → Holds a es
    → (pcbs a).state ≢ task_stopped
held_not_stopped pcbs top [] a listed held = absurd held
held_not_stopped pcbs top (t ∷ rest) a (entry, lone, listed) (inl here) =
    rw (← here) entry.not_stopped
held_not_stopped pcbs top (t ∷ rest) a (entry, lone, listed) (inr held) =
    held_not_stopped pcbs (pcbs t.pcb).pid rest a listed held

-- A control block whose node is not on the list is not on it either.
pub Without-not_held :
    (pcbs : ℕ → Pcb) (top : ℕ) (es : List Entry) (a : ℕ)
    → IsListed pcbs top es
    → Without (pcbs a).self es
    → ¬ Holds a es
Without-not_held pcbs top [] a listed others held = held
Without-not_held pcbs top (t ∷ rest) a (entry, lone, listed) (other, others) (inl here) =
    other (rw (← here) (sym entry.knows_node))
Without-not_held pcbs top (t ∷ rest) a (entry, lone, listed) (other, others) (inr held) =
    Without-not_held pcbs (pcbs t.pcb).pid rest a listed others held

-- A change to a control block that is not on the list.
pub IsListed-update :
    (pcbs : ℕ → Pcb) (top a : ℕ) (p : Pcb) (es : List Entry)
    → ¬ Holds a es
    → IsListed pcbs top es
    → IsListed (update pcbs a p) top es
IsListed-update pcbs top a p es off listed = IsListed-same pcbs (update pcbs a p) top es same listed
  where
    same : (b : ℕ) → Holds b es → SameEntry (pcbs b) (update pcbs a p b)
    same b held = elim (Bool-cases (b == a)) [
      | inl here ↦ let e : b ≡ a = ground arith in absurd (off (subst (λ c. Holds c es) e held))
      | inr other ↦ let e : update pcbs a p b ≡ pcbs b = ground arith in rw e (refl, refl, refl)
    ]
