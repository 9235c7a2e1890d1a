-- ===== src/Process/Tests.antt =====
-- src/process/process.c on two processes: init with pid 0, and a second one.
use sector_os_re.Base.{
  true, sym, some, none, false, ◌∙◌, ap, ◌≢◌, ◌∷◌, List, ◌<◌, refl, inr, inl, ◌≡◌, arith, [], ℕ,
}
use sector_os_re.Process.{
  kernel_task, created_state, userspace_task, state_name, process_line, attach_to, lines_of,
  attach_handler, list_process, kernel_switch, found_or, search_down, remove_node, save_context,
  exit_from, panicked, exit, take_out, jump_to, save_last, context_switch, switch_to, run_found,
  find_pid, get_process_by_pid, change_to, change_process, alloc_pid, add_process, returns, new_pcb,
  Pcb, create_process_from_routine, switched, init_process_manager, Registers, Jump, Given,
  Processes, Outcome,
}
use sector_os_re.Process.Steps.{
  yielded, Step-IsValid, booted, created, stepped, Reached, reached-IsValid, IsFresh, IsValid, boot,
}
use sector_os_re.Process.Search.{IsNearest}
use sector_os_re.Process.Listed.{Holds}
use sector_os_re.Process.Exit.{exit-init, exit-IsNearest}
use sector_os_re.Process.Keys.{
  calls_of, text_calls, typing-text_strokes, stroke_of, typing, strokes_of, text_strokes,
  is_typeable,
}
use sector_os_re.Process.Resume.{interrupted, switch_and_back}
use sector_os_re.Process.Keyboard.{handler_of}

abbrev blank : ℕ → Pcb
blank a = new_pcb [] 0 0 0 (record { pcb = 0; node = 0; page_dir = 0; cr3 = 0 })

abbrev regs_at : ℕ → Registers
regs_at eip = record {
  eax = 1;
  ecx = 2;
  edx = 3;
  ebx = 4;
  ebp = 5;
  esi = 6;
  edi = 7;
  useresp = 0xbfff_fff0;
  eflags = 0x202;
  eip = eip;
}

abbrev first_given : Given
first_given = record { pcb = 100; node = 101; page_dir = 4096; cr3 = 8192 }

abbrev second_given : Given
second_given = record { pcb = 200; node = 201; page_dir = 12288; cr3 = 16384 }

abbrev end_state : Outcome → Processes
end_state (switched t j) = t
end_state _ = boot blank 0

abbrev end_jump : Outcome → Jump
end_jump (switched t j) = j
end_jump _ = returns

booting : Processes
booting = init_process_manager (boot blank 512)

go_first : Outcome
go_first = create_process_from_routine 1 (regs_at 0) [] 0x1000 1 first_given booting

with_init : Processes
with_init = end_state go_first

go_second : Outcome
go_second = create_process_from_routine 2 (regs_at 0x1234) [] 0x2000 0 second_given with_init

with_two : Processes
with_two = end_state go_second

first-IsFresh : IsFresh first_given booting
unfolding booting init_process_manager
first-IsFresh = record { new_block = λ held. held; new_node = tt; pids_left = omega arith }

with_init-Reached : Reached with_init
unfolding with_init go_first booting create_process_from_routine add_process alloc_pid new_pcb
    change_process change_to get_process_by_pid find_pid run_found switch_to context_switch
    save_last jump_to init_process_manager
with_init-Reached =
    stepped (booted blank 512)
      (created 1 (regs_at 0) [] 0x1000 1 first_given (end_jump go_first) first-IsFresh refl)

second-IsFresh : IsFresh second_given with_init
unfolding with_init go_first booting create_process_from_routine add_process alloc_pid new_pcb
    change_process change_to get_process_by_pid find_pid run_found switch_to context_switch
    save_last jump_to init_process_manager
second-IsFresh = record {
  new_block = λ held. elim held [ inl same ↦ absurd (omega arith) | inr never ↦ never ];
  new_node = (omega arith, tt);
  pids_left = omega arith;
}

with_two-Reached : Reached with_two
unfolding with_two go_second with_init go_first booting create_process_from_routine add_process
    alloc_pid new_pcb change_process change_to get_process_by_pid find_pid run_found switch_to
    context_switch save_last jump_to init_process_manager
with_two-Reached =
    stepped with_init-Reached
      (created 2 (regs_at 0x1234) [] 0x2000 0 second_given (end_jump go_second) second-IsFresh refl)

reached-IsValid_two : IsValid with_two
reached-IsValid_two = reached-IsValid with_two with_two-Reached

reached-IsValid_example : IsValid with_two
reached-IsValid_example = reached-IsValid with_two with_two-Reached

-- The second process runs, and init is on the list.
with_two_state :
    (with_two.current_process ≡ some 200)
    × (with_two.last_process ≡ some 200)
    × Holds 100 with_two.process_list
    × ((with_two.pcbs 100).pid < (with_two.pcbs 200).pid)
    × ((with_two.pcbs 200).pid < 2)
    × (with_two.loaded ≢ 0)
unfolding with_two go_second with_init go_first booting create_process_from_routine add_process
    alloc_pid new_pcb change_process change_to get_process_by_pid find_pid run_found switch_to
    context_switch save_last jump_to init_process_manager
with_two_state = (refl, refl, inr (inl refl), omega arith, omega arith, omega arith)

exit-IsNearest_example :
    (a : ℕ) × IsNearest (take_out 200 with_two) (with_two.pcbs 200).pid a
    × (exit 2 (regs_at 0) with_two ≡ switch_to (regs_at 0) (take_out 200 with_two) (some a))
exit-IsNearest_example =
    exit-IsNearest 2 (regs_at 0) with_two 200 100 with_two-Reached with_two_state.0 with_two_state.2
      with_two_state.3 with_two_state.4

-- Init has been asked for again, and runs with the second process on the list.
go_back : Outcome
go_back = change_process 1 (regs_at 0x2222) 0 with_two

back_at_init : Processes
back_at_init = end_state go_back

back_at_init_state :
    (go_back ≡ switched back_at_init (end_jump go_back))
    × (back_at_init.current_process ≡ some 100)
    × ((back_at_init.pcbs 100).pid ≡ 0)
unfolding back_at_init go_back with_two go_second with_init go_first booting
    create_process_from_routine add_process alloc_pid new_pcb change_process change_to
    get_process_by_pid find_pid run_found switch_to context_switch save_last jump_to
    init_process_manager
back_at_init_state = (refl, refl, refl)

back_at_init-IsValid : IsValid back_at_init
unfolding go_back
back_at_init-IsValid =
    Step-IsValid with_two back_at_init reached-IsValid_two
      (yielded 1 (regs_at 0x2222) 0 (end_jump go_back) back_at_init_state.0)

-- Init exits while the second process is on the list.
exit-init_example : exit 7 (regs_at 0) back_at_init ≡ panicked
unfolding go_back
exit-init_example =
    exit-init 7 (regs_at 0) back_at_init 100 back_at_init-IsValid back_at_init_state.1
      back_at_init_state.2

pid_of_init : (with_two.pcbs 100).pid ≡ 0
unfolding with_two go_second with_init go_first booting create_process_from_routine add_process
    alloc_pid new_pcb change_process change_to get_process_by_pid find_pid run_found switch_to
    context_switch save_last jump_to init_process_manager
pid_of_init = refl

switch_and_back_example :
    (u : Processes) × (change_process 2 (regs_at 0x1010) (with_two.pcbs 200).pid back_at_init
      ≡ switched u
          (jump_to (with_two.pcbs 200).task_type (interrupted (regs_at 0x2222) with_two.loaded)))
    × (u.loaded ≡ with_two.loaded)
unfolding go_back
switch_and_back_example =
    switch_and_back 1 2 (regs_at 0x2222) (regs_at 0x1010) with_two back_at_init 200 100
      (end_jump go_back) reached-IsValid_two with_two_state.1 with_two_state.2 (omega arith)
      with_two_state.5
      (ap (λ pid. change_process 1 (regs_at 0x2222) pid with_two) pid_of_init
        ∙ back_at_init_state.0)

-- A process at 5 whose handler is at 77.
abbrev typist : Processes
typist = record (boot (λ a. record (blank a) { handler = 77 }) 0) { current_process = some 5 }

-- "Ls"
abbrev ls_text : List ℕ
ls_text = b'L' ∷ b's' ∷ []

typing-text_strokes_example :
    typing typist false (text_strokes ls_text) ≡ (false, text_calls ls_text)
unfolding is_typeable handler_of new_pcb
typing-text_strokes_example =
    typing-text_strokes typist 77 ls_text refl (omega arith) (refl, (refl, tt))

ls_calls : text_calls ls_text ≡ none ∷ some b'L' ∷ none ∷ none ∷ some b's' ∷ none ∷ []
unfolding text_calls calls_of stroke_of
ls_calls = refl

ls_strokes : text_strokes ls_text ≡ 0x2a ∷ 0x26 ∷ 0xa6 ∷ 0xaa ∷ 0x1f ∷ 0x9f ∷ []
unfolding text_strokes strokes_of stroke_of
ls_strokes = refl

-- An exit of the second process stops at init.
exit_of_second :
    end_jump (exit 2 (regs_at 0) with_two) ≡ kernel_switch (save_context (regs_at 0x1234) 8192)
unfolding exit exit_from take_out remove_node search_down found_or with_two go_second with_init
    go_first booting create_process_from_routine add_process alloc_pid new_pcb change_process
    change_to get_process_by_pid find_pid run_found switch_to context_switch save_last jump_to
    init_process_manager
exit_of_second = refl

-- What list_process says while the second process runs.
listed_two : list_process with_two ≡ (
  2,
  some (
      (record {
        is_current = true;
        pid = 1;
        name = [];
        task_type = userspace_task;
        state = created_state;
      })
      ∷ (record {
        is_current = false;
        pid = 0;
        name = [];
        task_type = kernel_task;
        state = created_state;
      })
      ∷ []),
)
unfolding list_process lines_of process_line state_name with_two go_second with_init go_first
    booting create_process_from_routine add_process alloc_pid new_pcb change_process change_to
    get_process_by_pid find_pid run_found switch_to context_switch save_last jump_to
    init_process_manager
listed_two = refl

abbrev handler_at : ℕ → Processes → ℕ
handler_at a s = (s.pcbs a).handler

-- A handler is attached to the running process.
attached_two : (t : Processes) → attach_handler 77 with_two ≡ some t → (t.pcbs 200).handler ≡ 77
unfolding attach_handler attach_to with_two go_second with_init go_first booting
    create_process_from_routine add_process alloc_pid new_pcb change_process change_to
    get_process_by_pid find_pid run_found switch_to context_switch save_last jump_to
    init_process_manager
attached_two t e = ap (λ o. elim o [ none ↦ 77 | some u ↦ handler_at 200 u ]) (sym e)
