-- ===== src/Task.antt =====
-- src/kernel/task.c and src/kernel/scheduler.c: the ring of tasks and the choice of the next one.
-- The two routines that leave the calling task, `task_exit` and `task_sleep`, are modelled up to the
-- point where `context_switch` (assembly) is called.
use quantum_kernel.Memory.{kmalloc}
use quantum_kernel.Bytes.{Bytes, zeros, write8, fill, store_list, write32}
pub mod Schedule
pub mod Ring
pub mod Choice
mod Loop
mod Turns
pub mod Create
pub mod Kill
pub mod Tests
use quantum_kernel.Prelude.{
  if◌then◌else◌, u32, ℕ, zero, suc, ◌+◌, ◌-◌, ◌^◌, Bool, true, false, Option, none, some, [], ◌∷◌,
  ◌==◌,
}

pub data TaskState : Type 0 where
  task_running : TaskState
  task_sleeping : TaskState
  task_zombie : TaskState

abbrev pub task_name_len : ℕ
task_name_len = 32

-- `task_t`. A `pid`, an `int`, is kept as its 32 bits.
pub record Task : Type 0 where
  pub pid : ℕ
  pub esp : ℕ
  pub ebp : ℕ
  pub eip : ℕ
  pub state : TaskState
  pub wakeup_tick : ℕ
  pub name : Bytes
  pub page_ctx : ℕ
  pub next : ℕ

abbrev pub sizeof_task : ℕ
sizeof_task = 64

-- After `memset(t, 0, sizeof(task_t))`; TASK_RUNNING is 0.
abbrev pub blank : Task
blank = record {
  pid = 0;
  esp = 0;
  ebp = 0;
  eip = 0;
  state = task_running;
  wakeup_tick = 0;
  name = zeros;
  page_ctx = 0;
  next = 0;
}

-- The static variables of task.c, the tasks by address, the stacks' memory, the heap pointer, and
-- the two contexts that src/cpu/paging.c keeps.
pub record Kernel : Type 0 where
  pub current : ℕ
  pub task_list : ℕ
  pub next_pid : ℕ
  pub tasks : ℕ → Task
  pub memory : Bytes
  pub heap_ptr : ℕ
  pub kernel_page_context : ℕ
  pub current_context : ℕ

unfoldable pub is_running : TaskState → Bool
is_running task_running = true
is_running task_sleeping = false
is_running task_zombie = false

unfoldable pub is_sleeping : TaskState → Bool
is_sleeping task_running = false
is_sleeping task_sleeping = true
is_sleeping task_zombie = false

-- `*p = t`
unfoldable pub store : ℕ → Task → Kernel → Kernel
store p t s = record s { tasks = λ q. if q == p then t else s.tasks q }

-- `p->state = state`
unfoldable pub set_state : ℕ → TaskState → Kernel → Kernel
set_state p state s = store p (record (s.tasks p) { state = state }) s

-- `kernel_task` is the address of the static variable.
unfoldable pub task_init : ℕ → Kernel → Kernel
task_init kernel_task s =
    record (store kernel_task
      (record blank { page_ctx = s.kernel_page_context; next = kernel_task }) s) {
        current = kernel_task;
        task_list = kernel_task;
      }

-- The first loop of `strncpy` of src/lib/string.c, with `n - i` rounds left: the characters, and
-- the index it ends at.
unfoldable pub copy_chars : ℕ → ℕ → Bytes → Bytes → Bytes × ℕ
copy_chars zero i dest src = (dest, i)
copy_chars (suc n) i dest src =
    let rest = copy_chars n (suc i) (write8 dest i (src i)) src in
    if src i == 0 then (dest, i) else rest

unfoldable pub strncpy : Bytes → Bytes → ℕ → Bytes
strncpy dest src n = let (copied, i) = copy_chars n 0 dest src in fill copied i 0 (n - i)

-- `"task"`
abbrev pub default_name : Bytes
default_name = store_list zeros 0 (b't' ∷ b'a' ∷ b's' ∷ b'k' ∷ [])

-- The task that `task_create` fills in, before it is linked. `entry` and `task_exit` are addresses
-- of code.
unfoldable pub new_task : ℕ → Option Bytes → ℕ → Kernel → Task
new_task entry name stack_top s = record blank {
  esp = stack_top;
  ebp = stack_top;
  eip = entry;
  state = task_running;
  pid = s.next_pid;
  name = strncpy zeros (elim name [ some n ↦ n | none ↦ default_name ]) (task_name_len - 1);
  page_ctx = s.kernel_page_context;
}

-- The new task's address, and the state.
unfoldable pub task_create : ℕ → Option Bytes → ℕ → Kernel → ℕ × Kernel
task_create entry name task_exit s =
    let (t, p) = kmalloc sizeof_task s.heap_ptr in
    let (stack, p') = kmalloc 4096 p in
    let stack_top = u32 (u32 (stack + 4096) + (2 ^ 32 - 4)) in
    let new = record (new_task entry name stack_top s) { next = (s.tasks s.task_list).next } in
    let s' = record s {
      memory = write32 s.memory stack_top task_exit;
      heap_ptr = p';
      next_pid = u32 (s.next_pid + 1);
    } in
    let linked = store t new s' in
    (t, store s.task_list (record (linked.tasks s.task_list) { next = t }) linked)

-- `task_set_current(t)`, with `paging_switch_context` of src/cpu/paging.c.
unfoldable pub task_set_current : ℕ → Kernel → Kernel
task_set_current t s =
    let s' = record s { current = t } in
    if t == 0
    then s'
    else if (s.tasks t).page_ctx == 0
    then s'
    else record s' { current_context = (s.tasks t).page_ctx }
