-- ===== src/Process/Steps.antt =====
-- The calls of src/process/process.c one after the other, and what holds between any two of them.
use mathlib.Core.Path.{subst}
use sector_os_re.Base.{
  add32, update_self, update, refl, zero, inr, sub32, inl, Option-cases, ◌==◌, arith, none, suc,
  ◌+◌, ◌^◌, Bool-cases, [], some, Option, ◌<◌, List, ◌≡◌, ℕ,
}
use sector_os_re.Process.{
  attach_to, attach_handler, exit, create_process_from_routine, Jump, init_process_manager, new_pcb,
  task_stopped, Pcb, switched, found_or, context_switch, alloc_pid, Registers, run_found, take_out,
  Processes, exit_from, Given, save_last, switch_to, get_process_by_pid, change_to, add_process,
  Outcome, change_process, search_down,
}
use sector_os_re.Process.Listed.{
  IsListed-update, SameEntry, IsListed-same, Without, Holds, IsListed,
}
use sector_os_re.Process.Removal.{removed-IsListed}
use sector_os_re.Process.Search.{find_pid_sound}

-- What also holds while a process leaves: the context is saved to a process on the list only.
pub record IsBase (s : Processes) : Type 0 where
  pub listed : IsListed s.pcbs s.curr_pid s.process_list
  pub pids_fit : s.curr_pid < 2 ^ 32
  pub last_held : (l : ℕ) → s.last_process ≡ some l → Holds l s.process_list

pub record IsValid (s : Processes) : Type 0 where
  pub base : IsBase s
  pub current_held : (c : ℕ) → s.current_process ≡ some c → Holds c s.process_list

-- What the heap gives is not in use yet, and the pids have not run out.
pub record IsFresh (given : Given) (s : Processes) : Type 0 where
  pub new_block : ¬ Holds given.pcb s.process_list
  pub new_node : Without given.node s.process_list
  pub pids_left : s.curr_pid + 1 < 2 ^ 32

-- The globals at the start.
abbrev pub boot : (ℕ → Pcb) → ℕ → Processes
boot pcbs loaded = record {
  pcbs = pcbs;
  process_list = [];
  current_process = none;
  last_process = none;
  curr_pid = 0;
  freed = [];
  loaded = loaded;
}

pub data Step (s t : Processes) : Type 0 where
  created :
      (rounds : ℕ) (saved : Registers) (name : List ℕ) (entrypoint task_type : ℕ) (given : Given)
      (j : Jump)
      → IsFresh given s
      → create_process_from_routine rounds saved name entrypoint task_type given s ≡ switched t j
      → Step s t
  exited :
      (rounds : ℕ) (saved : Registers) (j : Jump) → exit rounds saved s ≡ switched t j → Step s t
  yielded :
      (rounds : ℕ) (saved : Registers) (pid : ℕ) (j : Jump)
      → change_process rounds saved pid s ≡ switched t j
      → Step s t
  attached : (handler : ℕ) → attach_handler handler s ≡ some t → Step s t

pub data Reached : Processes → Type 0 where
  booted : (pcbs : ℕ → Pcb) (loaded : ℕ) → Reached (init_process_manager (boot pcbs loaded))
  stepped : {s t : Processes} → Reached s → Step s t → Reached t

abbrev OptionIs : (Processes → Type 0) → Option Processes → Type 0
OptionIs P none = Unit
OptionIs P (some s) = P s

abbrev Kept : Outcome → Type 0
Kept (switched t j) = IsValid t
Kept _ = Unit

-- Saving the context changes nothing that the list's predicate reads.
save_last-same :
    (saved : Registers) (s : Processes) (last : Option ℕ) (a : ℕ)
    → SameEntry (s.pcbs a) (save_last saved s last a)
unfolding save_last
save_last-same saved s none a = (refl, refl, refl)
save_last-same saved s (some last) a = elim (Bool-cases (a == last)) [
  | inl here ↦ let e : a ≡ last = ground arith in rw (here, e) (refl, refl, refl)
  | inr other ↦ rw other (refl, refl, refl)
]

switch_to-Kept :
    (saved : Registers) (s : Processes) (a : ℕ)
    → IsBase s
    → Holds a s.process_list
    → Kept (switch_to saved s (some a))
unfolding switch_to context_switch
switch_to-Kept saved s a base held = record {
  base = record {
    listed =
        IsListed-same s.pcbs
          (save_last saved (record s { current_process = some a }) s.last_process) s.curr_pid
          s.process_list
          (λ b _. save_last-same saved (record s { current_process = some a }) s.last_process b)
          base.listed;
    pids_fit = base.pids_fit;
    last_held = λ l e. let same : a ≡ l = ground (arith, e) in rw (← same) held;
  };
  current_held = λ c e. let same : a ≡ c = ground (arith, e) in rw (← same) held;
}

found-Kept :
    (saved : Registers) (s : Processes) (found : Option ℕ)
    → IsBase s
    → ((a : ℕ) → found ≡ some a → Holds a s.process_list)
    → Kept (switch_to saved s found)
unfolding switch_to
found-Kept saved s none base held = tt
found-Kept saved s (some a) base held = switch_to-Kept saved s a base (held a refl)

get-Holds : (s : Processes) (pid a : ℕ) → get_process_by_pid s pid ≡ some a → Holds a s.process_list
unfolding get_process_by_pid
get-Holds s pid a found = (find_pid_sound s.pcbs s.process_list pid a found).0

search_down-Holds :
    (rounds : ℕ) (s : Processes) (pid a after : ℕ)
    → search_down rounds s pid ≡ some (a, after)
    → Holds a s.process_list
unfolding search_down found_or
search_down-Holds zero s pid a after found = cc
search_down-Holds (suc rounds) s pid a after found =
    elim (Option-cases (get_process_by_pid s pid)) [
      | inl missed ↦ search_down-Holds rounds s (sub32 pid 1) a after (rw missed at found)
      | inr (b, here) ↦
          let at_b : some (b, sub32 pid 1) ≡ some (a, after) = rw here at found in
          let same : b ≡ a = ground (arith, at_b) in rw (← same) (get-Holds s pid b here)
    ]

run_found-Kept :
    (saved : Registers) (s : Processes) (found : Option (ℕ × ℕ))
    → IsBase s
    → ((a after : ℕ) → found ≡ some (a, after) → Holds a s.process_list)
    → Kept (run_found saved s found)
unfolding run_found
run_found-Kept saved s none base held = tt
run_found-Kept saved s (some (a, pid)) base held =
    elim (Bool-cases ((s.pcbs a).state == task_stopped)) [
      | inl stopped ↦
          rw stopped (found-Kept saved s (get_process_by_pid s pid) base (get-Holds s pid))
      | inr runs ↦ rw runs (switch_to-Kept saved s a base (held a pid refl))
    ]

change_to-Kept :
    (rounds : ℕ) (saved : Registers) (pid : ℕ) (s : Processes) (found : Option ℕ)
    → IsBase s
    → ((a : ℕ) → found ≡ some a → Holds a s.process_list)
    → Kept (change_to rounds saved pid s found)
unfolding change_to
change_to-Kept rounds saved pid s (some a) base held =
    run_found-Kept saved s (some (a, pid)) base
      λ b after e. let same : a ≡ b = ground (arith, e) in rw (← same) (held a refl)
change_to-Kept rounds saved pid s none base held = elim (Bool-cases (pid == 0)) [
  | inl init ↦ rw init tt
  | inr other ↦
      rw other
        (run_found-Kept saved s (search_down rounds s pid) base (search_down-Holds rounds s pid))
]

change_process-Kept :
    (rounds : ℕ) (saved : Registers) (pid : ℕ) (s : Processes)
    → IsBase s
    → Kept (change_process rounds saved pid s)
unfolding change_process
change_process-Kept rounds saved pid s base =
    change_to-Kept rounds saved pid s (get_process_by_pid s pid) base (get-Holds s pid)

pub take_out-IsBase : (c : ℕ) (s : Processes) → IsBase s → IsBase (take_out c s)
unfolding take_out
take_out-IsBase c s base = record {
  listed =
      removed-IsListed s.pcbs s.curr_pid c (record (s.pcbs c) { state = task_stopped })
        s.process_list base.listed;
  pids_fit = base.pids_fit;
  last_held = λ l e. cc;
}

exit_from-Kept :
    (rounds : ℕ) (saved : Registers) (s : Processes) (current : Option ℕ)
    → IsBase s
    → Kept (exit_from rounds saved s current)
unfolding exit_from
exit_from-Kept rounds saved s none base = tt
exit_from-Kept rounds saved s (some c) base =
    change_process-Kept rounds saved (s.pcbs c).pid (take_out c s) (take_out-IsBase c s base)

-- A fresh control block is put in front of the list.
add_process-IsBase :
    (name : List ℕ) (entrypoint task_type : ℕ) (given : Given) (s : Processes)
    → IsBase s
    → IsFresh given s
    → IsBase (add_process name entrypoint task_type given s)
unfolding add_process alloc_pid new_pcb
add_process-IsBase name entrypoint task_type given s base fresh =
    let p = new_pcb name entrypoint task_type s.curr_pid given in
    let pcbs = update s.pcbs given.pcb p in
    let e : pcbs given.pcb ≡ p = update_self s.pcbs given.pcb p in
    let top : s.curr_pid + 1 ≡ add32 s.curr_pid 1 = omega (arith, fresh.pids_left) in
    record {
      listed = (
        record {
          pid_below = rw e (omega (arith, fresh.pids_left));
          not_stopped = rw e (omega arith);
          knows_node = rw e refl;
        },
        fresh.new_node,
        rw e (
            IsListed-update s.pcbs s.curr_pid given.pcb p s.process_list fresh.new_block
              base.listed),
      );
      pids_fit = omega arith;
      last_held = λ l e. inr (base.last_held l e);
    }

attach_to-IsValid :
    (handler : ℕ) (s : Processes) (current : Option ℕ) (t : Processes)
    → IsValid s
    → attach_to handler s current ≡ some t
    → IsValid t
unfolding attach_to
attach_to-IsValid handler s none t valid e = cc
attach_to-IsValid handler s (some c) t valid e =
    subst (λ (o : Option Processes). OptionIs IsValid o) e
      (record {
        base = record {
          listed =
              IsListed-same s.pcbs (update s.pcbs c (record (s.pcbs c) { handler = handler }))
                s.curr_pid s.process_list (λ a _. same a) valid.base.listed;
          pids_fit = valid.base.pids_fit;
          last_held = valid.base.last_held;
        };
        current_held = valid.current_held;
      })
  where
    same :
        (a : ℕ) → SameEntry (s.pcbs a) (update s.pcbs c (record (s.pcbs c) { handler = handler }) a)
    same a = elim (Bool-cases (a == c)) [
      | inl here ↦ let e : a ≡ c = ground arith in rw (here, e) (refl, refl, refl)
      | inr other ↦ rw other (refl, refl, refl)
    ]

-- Every call keeps the process list and the two pointers into it right.
pub Step-IsValid : (s t : Processes) → IsValid s → Step s t → IsValid t
unfolding create_process_from_routine attach_handler attach_to exit
Step-IsValid s t valid (created rounds saved name entrypoint task_type given j fresh e) =
    subst Kept e (
      change_process-Kept rounds saved s.curr_pid (add_process name entrypoint task_type given s)
        (add_process-IsBase name entrypoint task_type given s valid.base fresh))
Step-IsValid s t valid (exited rounds saved j e) =
    subst Kept e (exit_from-Kept rounds saved s s.current_process valid.base)
Step-IsValid s t valid (yielded rounds saved pid j e) =
    subst Kept e (change_process-Kept rounds saved pid s valid.base)
Step-IsValid s t valid (attached handler e) =
    attach_to-IsValid handler s s.current_process t valid e

-- After any calls since the start that came back, the process list is in order (falling pids, no
-- stopped process, each process in its own node), and the current process and the one whose context
-- the next switch saves are on it.
pub reached-IsValid : (s : Processes) → Reached s → IsValid s
unfolding init_process_manager
reached-IsValid s (booted pcbs loaded) = record {
  base = record { listed = tt; pids_fit = omega arith; last_held = λ l e. cc };
  current_held = λ c e. cc;
}
reached-IsValid s (stepped {s = r} past step) = Step-IsValid r s (reached-IsValid r past) step
