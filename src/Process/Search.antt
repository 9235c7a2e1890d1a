-- ===== src/Process/Search.antt =====
-- Which process get_process_by_pid and the loop of change_process come to.
use sector_os_re.Base.{
  ◌∙◌, refl, zero, false, sub32, Option-cases, [], inr, inl, ◌==◌, Bool-cases, ◌≢◌, ◌∷◌, arith, ◌≤◌,
  some, ◌^◌, List, none, ◌<◌, suc, ◌≡◌, ℕ,
}
use sector_os_re.Process.{
  change_to, task_stopped, switch_to, Registers, run_found, found_or, change_process, Entry,
  search_down, Pcb, find_pid, get_process_by_pid, Processes,
}
use sector_os_re.Process.Listed.{held_not_stopped, IsListed, Holds}

pub find_pid_sound :
    (pcbs : ℕ → Pcb) (es : List Entry) (pid a : ℕ)
    → find_pid pcbs es pid ≡ some a
    → Holds a es × ((pcbs a).pid ≡ pid)
unfolding find_pid
find_pid_sound pcbs [] pid a found = cc
find_pid_sound pcbs (t ∷ rest) pid a found = elim (Bool-cases ((pcbs t.pcb).pid == pid)) [
  | inl here ↦
      let first : some t.pcb ≡ some a = rw here at found in
      let e : t.pcb ≡ a = ground (arith, first) in (inl e, rw (← e) (ground arith))
  | inr other ↦
      let (held, same) = find_pid_sound pcbs rest pid a (rw other at found) in (inr held, same)
]

pub find_pid-none :
    (pcbs : ℕ → Pcb) (es : List Entry) (pid a : ℕ)
    → find_pid pcbs es pid ≡ none
    → Holds a es
    → (pcbs a).pid ≢ pid
unfolding find_pid
find_pid-none pcbs [] pid a missed held = absurd held
find_pid-none pcbs (t ∷ rest) pid a missed held = elim (Bool-cases ((pcbs t.pcb).pid == pid)) [
  | inl here ↦ let e : some t.pcb ≡ none = rw here at missed in cc
  | inr other ↦ elim held [
    | inl same ↦ rw (← same) (ground arith)
    | inr later ↦ find_pid-none pcbs rest pid a (rw other at missed) later
  ]
]

-- The process at `a` is the one of the highest pid up to `pid`.
pub record IsNearest (s : Processes) (pid a : ℕ) : Type 0 where
  pub held : Holds a s.process_list
  pub at_most : (s.pcbs a).pid ≤ pid
  pub nearest :
      (b : ℕ) → Holds b s.process_list → (s.pcbs b).pid ≤ pid → (s.pcbs b).pid ≤ (s.pcbs a).pid

found-IsNearest :
    (s : Processes) (pid a : ℕ) → get_process_by_pid s pid ≡ some a → IsNearest s pid a
unfolding get_process_by_pid
found-IsNearest s pid a found =
    let (held, same) = find_pid_sound s.pcbs s.process_list pid a found in
    record {
      held = held;
      at_most = omega (arith, same);
      nearest = λ b _ le. omega (arith, same, le);
    }

missed-IsNearest :
    (s : Processes) (pid a : ℕ)
    → get_process_by_pid s (suc pid) ≡ none
    → IsNearest s pid a
    → IsNearest s (suc pid) a
unfolding get_process_by_pid
missed-IsNearest s pid a missed near = record {
  held = near.held;
  at_most = omega (arith, near.at_most);
  nearest = λ b held le.
      near.nearest b held
        (omega (arith, le, find_pid-none s.pcbs s.process_list (suc pid) b missed held));
}

get_process_by_pid-none :
    (s : Processes) (pid b : ℕ)
    → get_process_by_pid s pid ≡ none
    → Holds b s.process_list
    → (s.pcbs b).pid ≢ pid
unfolding get_process_by_pid
get_process_by_pid-none s pid b missed held = find_pid-none s.pcbs s.process_list pid b missed held

-- What the loop comes to.
abbrev Nearest : ℕ → Processes → ℕ → Type 0
Nearest rounds s pid =
    (a : ℕ) × (after : ℕ) × (search_down rounds s pid ≡ some (a, after)) × IsNearest s pid a

search_down-missed :
    (rounds : ℕ) (s : Processes) (pid b : ℕ)
    → ((low : ℕ) → low < 2 ^ 32 → low < rounds → (s.pcbs b).pid ≤ low → Nearest rounds s low)
    → pid < 2 ^ 32
    → pid < suc rounds
    → Holds b s.process_list
    → (s.pcbs b).pid ≤ pid
    → get_process_by_pid s pid ≡ none
    → Nearest (suc rounds) s pid
unfolding search_down found_or
search_down-missed rounds s zero b later lt fuel held le missed =
    absurd (get_process_by_pid-none s zero b missed held (omega arith))
search_down-missed rounds s (suc pid) b later lt fuel held le missed =
    let e : sub32 (suc pid) 1 ≡ pid = omega arith in
    let step : search_down (suc rounds) s (suc pid) ≡ search_down rounds s pid =
      rw (missed, e) refl in
    let other = get_process_by_pid-none s (suc pid) b missed held in
    let below : (s.pcbs b).pid ≤ pid = ground (arith, other) in
    let (a, after, found, near) = later pid (omega arith) (omega arith) below in
    (a, after, step ∙ found, missed-IsNearest s pid a missed near)

-- The loop comes to the nearest process below, if there is one.
pub search_down-Nearest :
    (rounds : ℕ) (s : Processes) (pid b : ℕ)
    → pid < 2 ^ 32
    → pid < rounds
    → Holds b s.process_list
    → (s.pcbs b).pid ≤ pid
    → Nearest rounds s pid
unfolding search_down found_or
search_down-Nearest zero s pid b lt fuel held le = absurd (omega arith)
search_down-Nearest (suc rounds) s pid b lt fuel held le =
    elim (Option-cases (get_process_by_pid s pid)) [
      | inr (a, found) ↦ (a, sub32 pid 1, rw found refl, found-IsNearest s pid a found)
      | inl missed ↦
          search_down-missed rounds s pid b
            (λ low lt' fuel' le'. search_down-Nearest rounds s low b lt' fuel' held le') lt fuel
            held le missed
    ]

-- The search of change_process ends, at the nearest process, and that process is switched to.
pub change_process-IsNearest :
    (rounds : ℕ) (saved : Registers) (pid : ℕ) (s : Processes) (b : ℕ)
    → IsListed s.pcbs s.curr_pid s.process_list
    → pid < 2 ^ 32
    → pid < rounds
    → Holds b s.process_list
    → (s.pcbs b).pid ≤ pid
    → (a : ℕ) × IsNearest s pid a × (change_process rounds saved pid s ≡ switch_to saved s (some a))
unfolding change_process change_to run_found
change_process-IsNearest rounds saved pid s b listed lt fuel held le =
    elim (Option-cases (get_process_by_pid s pid)) [
      | inr (a, found) ↦
          let near = found-IsNearest s pid a found in
          let runs = held_not_stopped s.pcbs s.curr_pid s.process_list a listed near.held in
          let e : ((s.pcbs a).state == task_stopped) ≡ false = ground (arith, runs) in
          (a, near, rw (found, e) refl)
      | inl missed ↦
          let other = get_process_by_pid-none s pid b missed held in
          let nonzero : (pid == 0) ≡ false = ground (arith, other) in
          let (a, after, found, near) = search_down-Nearest rounds s pid b lt fuel held le in
          let runs = held_not_stopped s.pcbs s.curr_pid s.process_list a listed near.held in
          let e : ((s.pcbs a).state == task_stopped) ≡ false = ground (arith, runs) in
          (a, near, rw (missed, nonzero, found, e) refl)
    ]
