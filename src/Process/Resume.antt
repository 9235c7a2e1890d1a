-- ===== src/Process/Resume.antt =====
-- The context that the assembly code is handed when a process is switched to again.
use mathlib.Core.Path.{ap, sym, subst}
use sector_os_re.Base.{
  update_ne, ◌≢◌, update_self, [], refl, inr, arith, true, false, ◌∙◌, ap, sym, inl, ◌∷◌, ◌≡◌, some,
  ◌==◌, if◌then◌else◌, List, ℕ,
}
use sector_os_re.Process.{
  jump_to, Context, Outcome, save_context, task_stopped, switched, get_process_by_pid, Entry, Jump,
  switch_to, Pcb, Processes, run_found, change_to, ℕ, save_last, context_switch, change_process,
  find_pid, Registers,
}
use sector_os_re.Process.Listed.{held_pid, held_not_stopped, Holds, IsListed}
use sector_os_re.Process.Steps.{yielded, Step-IsValid, IsValid}
use sector_os_re.Process.Search.{}
use sector_os_re.Process.Exit.{}

-- A process on the list is found by its pid.
held_found :
    (pcbs : ℕ → Pcb) (top : ℕ) (es : List Entry) (a : ℕ)
    → IsListed pcbs top es
    → Holds a es
    → find_pid pcbs es (pcbs a).pid ≡ some a
unfolding find_pid
held_found pcbs top [] a listed held = absurd held
held_found pcbs top (t ∷ rest) a (entry, lone, listed) (inl here) =
    let same = ap (λ c. (pcbs c).pid) here in
    let test : ((pcbs t.pcb).pid == (pcbs a).pid) ≡ true = ground (arith, same) in
    rw test (ap some here)
held_found pcbs top (t ∷ rest) a (entry, lone, listed) (inr held) =
    let below = held_pid pcbs (pcbs t.pcb).pid rest a listed held in
    let test : ((pcbs t.pcb).pid == (pcbs a).pid) ≡ false = ground (arith, below) in
    rw test (held_found pcbs (pcbs t.pcb).pid rest a listed held)

-- A process on the list that is asked for by its pid is switched to.
pub change_process-held :
    (rounds : ℕ) (saved : Registers) (s : Processes) (a : ℕ)
    → IsListed s.pcbs s.curr_pid s.process_list
    → Holds a s.process_list
    → change_process rounds saved (s.pcbs a).pid s
      ≡ context_switch saved a (record s { current_process = some a })
unfolding change_process change_to run_found switch_to get_process_by_pid
change_process-held rounds saved s a listed held =
    let found = held_found s.pcbs s.curr_pid s.process_list a listed held in
    let runs = held_not_stopped s.pcbs s.curr_pid s.process_list a listed held in
    let test : ((s.pcbs a).state == task_stopped) ≡ false = ground (arith, runs) in
    rw (found, test) refl

-- The state that context_switch leaves when it goes to the process at `b`.
abbrev arrived : Registers → ℕ → Processes → Processes
arrived saved b s = record s {
  pcbs = save_last saved s s.last_process;
  loaded =
      let cr3 = (save_last saved s s.last_process b).regs.cr3 in if cr3 == 0 then s.loaded else cr3;
  current_process = some b;
  last_process = some b;
}

abbrev state_of : Processes → Outcome → Processes
state_of s (switched t j) = t
state_of s _ = s

switched-arrived :
    (rounds : ℕ) (saved : Registers) (s t : Processes) (b : ℕ) (j : Jump)
    → IsListed s.pcbs s.curr_pid s.process_list
    → Holds b s.process_list
    → change_process rounds saved (s.pcbs b).pid s ≡ switched t j
    → t ≡ arrived saved b s
unfolding context_switch save_last
switched-arrived rounds saved s t b j listed held e =
    sym (ap (state_of s) (sym (change_process-held rounds saved s b listed held) ∙ e))

-- What is saved of `a` is in its control block when the processor is at `b`.
saved_at :
    (saved : Registers) (s : Processes) (a : ℕ)
    → s.last_process ≡ some a
    → save_last saved s s.last_process a ≡ record (s.pcbs a) { regs = save_context saved s.loaded }
unfolding save_last
saved_at saved s a last =
    ap (λ o. save_last saved s o a) last
    ∙ update_self s.pcbs a (record (s.pcbs a) { regs = save_context saved s.loaded })

-- A switch from `b` back to `a` goes by what the control block of `a` holds.
back_to :
    (rounds : ℕ) (saved : Registers) (t : Processes) (a b : ℕ) (regs : Context)
    → IsValid t
    → Holds a t.process_list
    → t.last_process ≡ some b
    → a ≢ b
    → (t.pcbs a).regs ≡ regs
    → regs.cr3 ≢ 0
    → (u : Processes) × (change_process rounds saved (t.pcbs a).pid t
        ≡ switched u (jump_to (t.pcbs a).task_type regs))
      × (u.loaded ≡ regs.cr3)
unfolding context_switch save_last
back_to rounds saved t a b regs valid held last ne own some_page =
    let there = change_process-held rounds saved t a valid.base.listed held in
    let kept : save_last saved t t.last_process a ≡ t.pcbs a =
      ap (λ o. save_last saved t o a) last
      ∙ update_ne t.pcbs b (record (t.pcbs b) { regs = save_context saved t.loaded }) a ne in
    let test : (regs.cr3 == 0) ≡ false = ground (arith, some_page) in
    let same : (save_last saved t t.last_process a).regs ≡ regs =
      ap (λ (p : Pcb). p.regs) kept ∙ own in
    (
      arrived saved a t,
      there
          ∙ ap (λ (p : Pcb). switched (arrived saved a t) (jump_to p.task_type p.regs)) kept
          ∙ ap (λ r. switched (arrived saved a t) (jump_to (t.pcbs a).task_type r)) own,
      ap (λ (r : Context). if r.cr3 == 0 then t.loaded else r.cr3) same ∙ rw test refl,
    )

-- The registers as the interrupt saved them, under a page directory.
abbrev pub interrupted : Registers → ℕ → Context
interrupted r cr3 = record {
  eax = r.eax;
  ecx = r.ecx;
  edx = r.edx;
  ebx = r.ebx;
  esp = r.useresp;
  ebp = r.ebp;
  esi = r.esi;
  edi = r.edi;
  eflags = r.eflags;
  cr3 = cr3;
  eip = r.eip;
}

-- When a process `a` has given way to another process `b` and is then asked for by its pid, the
-- switch that is called is the one for its type of task, kernel or user, and the context that it is
-- handed has, field by field, the registers that the interrupt saved when `a` gave way and the page
-- directory that was loaded then, which is loaded again.
pub switch_and_back :
    (rounds rounds' : ℕ) (saved saved' : Registers) (s t : Processes) (a b : ℕ) (j : Jump)
    → IsValid s
    → s.last_process ≡ some a
    → Holds b s.process_list
    → a ≢ b
    → s.loaded ≢ 0
    → change_process rounds saved (s.pcbs b).pid s ≡ switched t j
    → (u : Processes) × (change_process rounds' saved' (s.pcbs a).pid t
        ≡ switched u (jump_to (s.pcbs a).task_type (interrupted saved s.loaded)))
      × (u.loaded ≡ s.loaded)
unfolding save_context
switch_and_back rounds rounds' saved saved' s t a b j valid last held ne some_page e =
    let at_b : t ≡ arrived saved b s =
      switched-arrived rounds saved s t b j valid.base.listed held e in
    let there = Step-IsValid s t valid (yielded rounds saved (s.pcbs b).pid j e) in
    let own = saved_at saved s a last in
    let block : t.pcbs a ≡ record (s.pcbs a) { regs = save_context saved s.loaded } =
      ap (λ (x : Processes). x.pcbs a) at_b ∙ own in
    let list : t.process_list ≡ s.process_list = ap (λ (x : Processes). x.process_list) at_b in
    let result =
      back_to rounds' saved' t a b (save_context saved s.loaded) there
        (rw list (valid.base.last_held a last)) (ap (λ (x : Processes). x.last_process) at_b) ne
        (ap (λ (p : Pcb). p.regs) block) some_page in
    subst
      (λ (p : Pcb).
        (u : Processes) × (change_process rounds' saved' p.pid t
          ≡ switched u (jump_to p.task_type (save_context saved s.loaded)))
        × (u.loaded ≡ s.loaded))
      block result
