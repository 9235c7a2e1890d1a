-- ===== src/Process/Exit.antt =====
-- Where the processor goes when a process exits.
use mathlib.Core.Path.{subst}
use sector_os_re.Base.{
  update, Option-cases, true, arith, ◌∙◌, sym, inr, ap, inl, refl, ◌==◌, ◌∷◌, ◌<◌, update_ne, none,
  some, [], ◌≢◌, ◌≡◌, List, ℕ,
}
use sector_os_re.Process.{
  remove_node, panicked, switch_to, task_stopped, Entry, change_to, change_process, Registers, Pcb,
  get_process_by_pid, exit_from, Processes, exit, take_out,
}
use sector_os_re.Process.Listed.{Without-not_held, held_pid, IsListed, Holds}
use sector_os_re.Process.Removal.{Holds-remove_node, removed_off, remove_node-Holds}
use sector_os_re.Process.Search.{find_pid_sound, change_process-IsNearest, IsNearest}
use sector_os_re.Process.Steps.{take_out-IsBase, reached-IsValid, IsValid, Reached, IsBase}

-- Two processes on the list stand in two nodes.
held_nodes_ne :
    (pcbs : ℕ → Pcb) (top : ℕ) (es : List Entry) (a b : ℕ)
    → IsListed pcbs top es
    → Holds a es
    → Holds b es
    → a ≢ b
    → (pcbs a).self ≢ (pcbs b).self
held_nodes_ne pcbs top [] a b listed held_a held_b ne = absurd held_a
held_nodes_ne pcbs top (t ∷ rest) a b (entry, lone, listed) (inl same_a) (inl same_b) ne =
    absurd (ne (sym same_a ∙ same_b))
held_nodes_ne pcbs top (t ∷ rest) a b (entry, lone, listed) (inl same_a) (inr held_b) ne = λ same.
    let own : t.node ≡ (pcbs b).self =
      sym entry.knows_node ∙ ap (λ c. (pcbs c).self) same_a ∙ same in
    Without-not_held pcbs (pcbs t.pcb).pid rest b listed (rw (← own) lone) held_b
held_nodes_ne pcbs top (t ∷ rest) a b (entry, lone, listed) (inr held_a) (inl same_b) ne = λ same.
    let own : t.node ≡ (pcbs a).self =
      sym entry.knows_node ∙ ap (λ c. (pcbs c).self) same_b ∙ sym same in
    Without-not_held pcbs (pcbs t.pcb).pid rest a listed (rw (← own) lone) held_a
held_nodes_ne pcbs top (t ∷ rest) a b (entry, lone, listed) (inr held_a) (inr held_b) ne =
    held_nodes_ne pcbs (pcbs t.pcb).pid rest a b listed held_a held_b ne

-- The other processes are where they were when one has been taken out.
take_out-Holds :
    (s : Processes) (c b : ℕ)
    → IsBase s
    → Holds c s.process_list
    → Holds b s.process_list
    → b ≢ c
    → Holds b (take_out c s).process_list × ((take_out c s).pcbs b ≡ s.pcbs b)
unfolding take_out
take_out-Holds s c b base held_c held_b ne = (
  remove_node-Holds s.pcbs s.curr_pid (s.pcbs c).self s.process_list b base.listed
      (held_nodes_ne s.pcbs s.curr_pid s.process_list b c base.listed held_b held_c ne) held_b,
  update_ne s.pcbs c (record (s.pcbs c) { state = task_stopped }) b ne,
)

exit-current :
    (rounds : ℕ) (saved : Registers) (s : Processes) (c : ℕ)
    → s.current_process ≡ some c
    → exit rounds saved s ≡ change_process rounds saved (s.pcbs c).pid (take_out c s)
unfolding exit exit_from
exit-current rounds saved s c current = ap (exit_from rounds saved s) current

-- Whatever calls were made since the start: when the current process `c` exits and a process `b` of a
-- smaller pid is on the list, the search ends within one round more than the pid of `c`, and the
-- processor goes to the process whose pid is the highest one up to that of `c`.
pub exit-IsNearest :
    (rounds : ℕ) (saved : Registers) (s : Processes) (c b : ℕ)
    → Reached s
    → s.current_process ≡ some c
    → Holds b s.process_list
    → (s.pcbs b).pid < (s.pcbs c).pid
    → (s.pcbs c).pid < rounds
    → (a : ℕ) × IsNearest (take_out c s) (s.pcbs c).pid a
      × (exit rounds saved s ≡ switch_to saved (take_out c s) (some a))
exit-IsNearest rounds saved s c b reached current held lower fuel =
    let valid = reached-IsValid s reached in
    let base = valid.base in
    let held_c = valid.current_held c current in
    let fits = held_pid s.pcbs s.curr_pid s.process_list c base.listed held_c in
    let ne : b ≢ c = λ e. let same = ap (λ x. (s.pcbs x).pid) e in omega (arith, same, lower) in
    let (still, kept) = take_out-Holds s c b base held_c held ne in
    let (a, near, e) =
      change_process-IsNearest rounds saved (s.pcbs c).pid (take_out c s) b
        (take_out-IsBase c s base).listed (omega (arith, fits, base.pids_fit)) fuel still
        (rw kept (omega (arith, lower))) in
    (a, near, exit-current rounds saved s c current ∙ e)

-- Two processes on the list have two pids.
pub held_pids_ne :
    (pcbs : ℕ → Pcb) (top : ℕ) (es : List Entry) (a b : ℕ)
    → IsListed pcbs top es
    → Holds a es
    → Holds b es
    → a ≢ b
    → (pcbs a).pid ≢ (pcbs b).pid
held_pids_ne pcbs top [] a b listed held_a held_b ne = absurd held_a
held_pids_ne pcbs top (t ∷ rest) a b (entry, lone, listed) (inl same_a) (inl same_b) ne =
    absurd (ne (sym same_a ∙ same_b))
held_pids_ne pcbs top (t ∷ rest) a b (entry, lone, listed) (inl same_a) (inr held_b) ne =
    let same = ap (λ c. (pcbs c).pid) same_a in
    let below = held_pid pcbs (pcbs t.pcb).pid rest b listed held_b in omega (arith, same, below)
held_pids_ne pcbs top (t ∷ rest) a b (entry, lone, listed) (inr held_a) (inl same_b) ne =
    let same = ap (λ c. (pcbs c).pid) same_b in
    let below = held_pid pcbs (pcbs t.pcb).pid rest a listed held_a in omega (arith, same, below)
held_pids_ne pcbs top (t ∷ rest) a b (entry, lone, listed) (inr held_a) (inr held_b) ne =
    held_pids_ne pcbs (pcbs t.pcb).pid rest a b listed held_a held_b ne

-- No process is left with the pid of the one that has been taken out.
pid_gone :
    (s : Processes) (c : ℕ)
    → IsBase s
    → Holds c s.process_list
    → get_process_by_pid (take_out c s) (s.pcbs c).pid ≡ none
unfolding get_process_by_pid take_out
pid_gone s c base held = elim (Option-cases (get_process_by_pid (take_out c s) (s.pcbs c).pid)) [
  | inl missed ↦ missed
  | inr (a, found) ↦
      let stopped = record (s.pcbs c) { state = task_stopped } in
      let rest = remove_node (s.pcbs c).self s.process_list in
      let (held_a, same) = find_pid_sound (update s.pcbs c stopped) rest (s.pcbs c).pid a found in
      let ne : a ≢ c = λ e.
        removed_off s.pcbs s.curr_pid c s.process_list base.listed
          (subst (λ x. Holds x rest) e held_a) in
      let kept = update_ne s.pcbs c stopped a ne in
      let pid_kept : (update s.pcbs c stopped a).pid ≡ (s.pcbs a).pid =
        ap (λ (p : Pcb). p.pid) kept in
      absurd (
        held_pids_ne s.pcbs s.curr_pid s.process_list a c base.listed
          (Holds-remove_node (s.pcbs c).self s.process_list a held_a) held ne (sym pid_kept ∙ same))
]

-- When the process of pid 0 exits, the kernel panics, whatever other processes are on the list.
pub exit-init :
    (rounds : ℕ) (saved : Registers) (s : Processes) (c : ℕ)
    → IsValid s
    → s.current_process ≡ some c
    → (s.pcbs c).pid ≡ 0
    → exit rounds saved s ≡ panicked
unfolding change_process change_to
exit-init rounds saved s c valid current init =
    let gone = pid_gone s c valid.base (valid.current_held c current) in
    let zero_pid : ((s.pcbs c).pid == 0) ≡ true = ground (arith, init) in
    let panics : change_process rounds saved (s.pcbs c).pid (take_out c s) ≡ panicked =
      rw (gone, zero_pid) refl in
    exit-current rounds saved s c current ∙ panics
