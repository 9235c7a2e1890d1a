-- ===== src/Process.antt =====
-- src/process/process.c: the processes and the switch from one to the next. A process control block is
-- kept by its address, as in the C code, so that what is written through `last_process` is seen
-- through `pcb`; NULL is `none`. `process_list` is the sequence that its nodes are in order
-- (LinkedList shows what the list functions do on it). What the heap answers is an argument.
pub mod Exit
pub mod Keyboard
pub mod Keys
pub mod Listed
pub mod Removal
pub mod Resume
pub mod Search
pub mod Steps
mod Tests
use sector_os_re.Base.{
  false, true, map, Bool, zero, sub32, suc, ◌==◌, update, none, some, if◌then◌else◌, ◌∷◌, add32,
  Option, List, [], ℕ,
}

pub record Context : Type 0 where
  pub eax : ℕ
  pub ecx : ℕ
  pub edx : ℕ
  pub ebx : ℕ
  pub esp : ℕ
  pub ebp : ℕ
  pub esi : ℕ
  pub edi : ℕ
  pub eflags : ℕ
  pub cr3 : ℕ
  pub eip : ℕ

-- `registers_t`, what the interrupt saved: the fields that are read here. The processor pushes
-- `useresp` only where the interrupted code ran in user mode; otherwise it is what lies behind the
-- frame.
pub record Registers : Type 0 where
  pub eax : ℕ
  pub ecx : ℕ
  pub edx : ℕ
  pub ebx : ℕ
  pub ebp : ℕ
  pub esi : ℕ
  pub edi : ℕ
  pub useresp : ℕ
  pub eflags : ℕ
  pub eip : ℕ

-- `pcb_t`, without the fields that no function reads. `handler` 0 is none.
pub record Pcb : Type 0 where
  pub filename : List ℕ
  pub regs : Context
  pub pid : ℕ
  pub self : ℕ
  pub state : ℕ
  pub page_dir : ℕ
  pub task_type : ℕ
  pub entrypoint : ℕ
  pub handler : ℕ

-- A node of `process_list`, by its address, and the `pcb_t` that it holds.
pub record Entry : Type 0 where
  pub node : ℕ
  pub pcb : ℕ

-- The globals, with the heap's control blocks, what was given to kfree (the last first), and the
-- register CR3 of the processor.
pub record Processes : Type 0 where
  pub pcbs : ℕ → Pcb
  pub process_list : List Entry
  pub current_process : Option ℕ
  pub last_process : Option ℕ
  pub curr_pid : ℕ
  pub freed : List ℕ
  pub loaded : ℕ

-- How context_switch ends: in one of the two assembly routines, or in a return.
pub data Jump : Type 0 where
  kernel_switch user_switch : Context → Jump
  returns : Jump

-- `panicked`: kernel_panic, which does not return. `faulted`: NULL is read through. `spinning`: the
-- loop of change_process has not come to an end.
pub data Outcome : Type 0 where
  switched : Processes → Jump → Outcome
  panicked faulted spinning : Outcome

abbrev pub task_stopped : ℕ
task_stopped = 8

abbrev pub task_created : ℕ
task_created = 64

abbrev pub kernel_page : ℕ
kernel_page = 0xc000_0000

pub alloc_pid : Processes → ℕ × Processes
alloc_pid s = (s.curr_pid, record s { curr_pid = add32 s.curr_pid 1 })

-- What context_switch saves of an interrupted process.
pub save_context : Registers → ℕ → Context
save_context r cr3 = record {
  eax = r.eax;
  ecx = r.ecx;
  edx = r.edx;
  ebx = r.ebx;
  esp = r.useresp;
  ebp = r.ebp;
  esi = r.esi;
  edi = r.edi;
  eflags = r.eflags;
  cr3 = cr3;
  eip = r.eip;
}

pub save_last : Registers → Processes → Option ℕ → ℕ → Pcb
save_last saved s none = s.pcbs
save_last saved s (some last) =
    update s.pcbs last (record (s.pcbs last) { regs = save_context saved s.loaded })

unfoldable pub jump_to : ℕ → Context → Jump
jump_to task_type regs =
    if task_type == 1
    then kernel_switch regs
    else if task_type == 0
    then user_switch regs
    else returns

-- `n_regs` points into the control block at `pcb`, which is the current process: the registers are
-- read after the last process's have been saved.
pub context_switch : Registers → ℕ → Processes → Outcome
context_switch saved pcb s =
    let pcbs = save_last saved s s.last_process in
    let n_regs = (pcbs pcb).regs in
    switched
      (record s {
        pcbs = pcbs;
        loaded = if n_regs.cr3 == 0 then s.loaded else n_regs.cr3;
        last_process = s.current_process;
      })
      (jump_to (pcbs pcb).task_type n_regs)

pub find_pid : (ℕ → Pcb) → List Entry → ℕ → Option ℕ
find_pid pcbs [] pid = none
find_pid pcbs (t ∷ rest) pid =
    let later = find_pid pcbs rest pid in if (pcbs t.pcb).pid == pid then some t.pcb else later

pub get_process_by_pid : Processes → ℕ → Option ℕ
get_process_by_pid s pid = find_pid s.pcbs s.process_list pid

pub found_or : Option ℕ → ℕ → Option (ℕ × ℕ) → Option (ℕ × ℕ)
found_or (some pcb) pid rest = some (pcb, pid)
found_or none pid rest = rest

-- `while (pcb == NULL)`, on fuel: the control block that is found, and `pid` as the loop leaves it.
pub search_down : ℕ → Processes → ℕ → Option (ℕ × ℕ)
search_down zero s pid = none
search_down (suc rounds) s pid =
    let rest = search_down rounds s (sub32 pid 1) in
    found_or (get_process_by_pid s pid) (sub32 pid 1) rest

-- `current_process = pcb` and the switch.
pub switch_to : Registers → Processes → Option ℕ → Outcome
switch_to saved s none = faulted
switch_to saved s (some pcb) = context_switch saved pcb (record s { current_process = some pcb })

-- A process that was found is left for another lookup if it is stopped; `pid--` gives `pid`.
pub run_found : Registers → Processes → Option (ℕ × ℕ) → Outcome
run_found saved s none = spinning
run_found saved s (some (pcb, pid)) =
    if (s.pcbs pcb).state == task_stopped
    then switch_to saved s (get_process_by_pid s pid)
    else switch_to saved s (some pcb)

-- change_process from the lookup on.
pub change_to : ℕ → Registers → ℕ → Processes → Option ℕ → Outcome
change_to rounds saved pid s (some pcb) = run_found saved s (some (pcb, pid))
change_to rounds saved pid s none =
    if pid == 0 then panicked else run_found saved s (search_down rounds s pid)

pub change_process : ℕ → Registers → ℕ → Processes → Outcome
change_process rounds saved pid s = change_to rounds saved pid s (get_process_by_pid s pid)

-- list_remove_node, on the sequence.
pub remove_node : ℕ → List Entry → List Entry
remove_node node [] = []
remove_node node (t ∷ rest) =
    let later = remove_node node rest in if t.node == node then rest else t ∷ later

-- exit up to its change_process: the process that was current is stopped, freed and off the list.
pub take_out : ℕ → Processes → Processes
take_out current s =
    let pcb = s.pcbs current in
    let freed = if pcb.page_dir == 0 then s.freed else pcb.page_dir ∷ s.freed in
    record s {
      pcbs = update s.pcbs current (record pcb { state = task_stopped });
      process_list = remove_node pcb.self s.process_list;
      last_process = none;
      freed = current ∷ freed;
    }

pub exit_from : ℕ → Registers → Processes → Option ℕ → Outcome
exit_from rounds saved s none = faulted
exit_from rounds saved s (some current) =
    change_process rounds saved (s.pcbs current).pid (take_out current s)

-- `ret` is only printed, and `pid--` gives `pid`.
pub exit : ℕ → Registers → Processes → Outcome
exit rounds saved s = exit_from rounds saved s s.current_process

-- What the heap and the pages answer create_process_from_routine: the addresses of the control
-- block, of its node and of its page directory, and the physical address of the directory.
pub record Given : Type 0 where
  pub pcb : ℕ
  pub node : ℕ
  pub page_dir : ℕ
  pub cr3 : ℕ

pub new_pcb : List ℕ → ℕ → ℕ → ℕ → Given → Pcb
new_pcb name entrypoint task_type pid given = record {
  filename = name;
  regs = record {
    eax = 0;
    ecx = 0;
    edx = 0;
    ebx = 0;
    esp = kernel_page;
    ebp = 0;
    esi = 0;
    edi = 0;
    eflags = 0x206;
    cr3 = given.cr3;
    eip = entrypoint;
  };
  pid = pid;
  self = given.node;
  state = task_created;
  page_dir = given.page_dir;
  task_type = task_type;
  entrypoint = entrypoint;
  handler = 0;
}

-- create_process_from_routine up to its change_process, for a name that fits into `filename`. On the
-- empty list, list_insert_front goes on from a write through NULL; the list is the one that it leaves.
pub add_process : List ℕ → ℕ → ℕ → Given → Processes → Processes
add_process name entrypoint task_type given s =
    let (pid, t) = alloc_pid s in
    record t {
      pcbs = update t.pcbs given.pcb (new_pcb name entrypoint task_type pid given);
      process_list = (record { node = given.node; pcb = given.pcb }) ∷ t.process_list;
    }

pub create_process_from_routine : ℕ → Registers → List ℕ → ℕ → ℕ → Given → Processes → Outcome
create_process_from_routine rounds saved name entrypoint task_type given s =
    change_process rounds saved s.curr_pid (add_process name entrypoint task_type given s)

pub attach_to : ℕ → Processes → Option ℕ → Option Processes
attach_to handler s none = none
attach_to handler s (some current) =
    some (record s { pcbs = update s.pcbs current (record (s.pcbs current) { handler = handler }) })

pub attach_handler : ℕ → Processes → Option Processes
attach_handler handler s = attach_to handler s s.current_process

-- The globals before and after: `list_create`. The keyboard is Keyboard's.
pub init_process_manager : Processes → Processes
init_process_manager s = record s { process_list = [] }

-- The words that list_process prints.
pub data TypeName : Type 0 where
  kernel_task userspace_task : TypeName

pub data StateName : Type 0 where
  created_state running_state loading_state unknown_state : StateName

pub record ProcessLine : Type 0 where
  pub is_current : Bool
  pub pid : ℕ
  pub name : List ℕ
  pub task_type : TypeName
  pub state : StateName

pub state_name : ℕ → StateName
state_name state =
    if state == task_created
    then created_state
    else if state == 0
    then running_state
    else if state == 128
    then loading_state
    else unknown_state

pub process_line : ℕ → Pcb → ProcessLine
process_line current_pid p = record {
  is_current = current_pid == p.pid;
  pid = p.pid;
  name = p.filename;
  task_type = if p.task_type == 1 then kernel_task else userspace_task;
  state = state_name p.state;
}

abbrev is_empty : List Entry → Bool
is_empty [] = true
is_empty (t ∷ rest) = false

pub lines_of : Processes → Option ℕ → Option (List ProcessLine)
lines_of s (some current) =
    some (map (λ t. process_line (s.pcbs current).pid (s.pcbs t.pcb)) s.process_list)
lines_of s none = if is_empty s.process_list then some [] else none

-- `No. of processes` is the next pid. The lines stop where `current_process` is NULL.
pub list_process : Processes → ℕ × Option (List ProcessLine)
list_process s = (s.curr_pid, lines_of s s.current_process)
