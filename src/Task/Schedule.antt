-- ===== src/Task/Schedule.antt =====
-- src/kernel/scheduler.c, and the operations of src/kernel/task.c that call it or walk the ring.
-- `now` is `get_tick_count()`. A loop along the ring takes fuel.
use mathlib.Core.Option
use quantum_kernel.Task.{
  Task, Kernel, is_sleeping, set_state, is_running, task_set_current, task_running, task_zombie,
  task_sleeping, store,
}
use quantum_kernel.Prelude.{
  leb, if◌then◌else◌, u32, ℕ, zero, suc, ◌+◌, Bool, ◌&&◌, Option, none, some, ◌==◌,
}

-- The sleeping task's time has come.
unfoldable pub is_due : ℕ → Task → Bool
is_due now t = is_sleeping t.state && leb t.wakeup_tick now

-- The `if` of the loop's body.
unfoldable pub wake : ℕ → ℕ → Kernel → Kernel
wake now next s = if is_due now (s.tasks next) then set_state next task_running s else s

-- The loop from `next` on: the task it stops at.
unfoldable pub find_next : ℕ → ℕ → ℕ → Kernel → Option (ℕ × Kernel)
find_next zero now next s = none
find_next (suc n) now next s =
    let woken = wake now next s in
    let rest = find_next n now (woken.tasks next).next woken in
    if is_running (s.tasks next).state then some (next, s) else rest

-- What a call ends with: a return to the caller, or `context_switch` between two tasks.
pub data Outcome : Type 0 where
  returns : Kernel → Outcome
  switches : ℕ → ℕ → Kernel → Outcome

unfoldable pub switch_to : ℕ → ℕ × Kernel → Outcome
switch_to prev (next, s) =
    if next == prev then returns s else switches prev next (task_set_current next s)

unfoldable pub task_schedule : ℕ → ℕ → Kernel → Option Outcome
task_schedule fuel now s =
    Option.map (switch_to s.current) (find_next fuel now (s.tasks s.current).next s)

unfoldable pub task_exit : ℕ → ℕ → Kernel → Option Outcome
task_exit fuel now s = task_schedule fuel now (set_state s.current task_zombie s)

unfoldable pub task_sleep : ℕ → ℕ → ℕ → Kernel → Option Outcome
task_sleep fuel now ms s =
    let cur = set_state s.current task_sleeping s in
    let t = record (cur.tasks s.current) { wakeup_tick = u32 (now + ms) } in
    task_schedule fuel now (store s.current t cur)

-- What `task_kill` ends with: 0, -1, or the caller's own exit, which does not return.
pub data Killed : Type 0 where
  killed : ℕ → Kernel → Killed
  no_such_task : Kernel → Killed
  own_exit : Option Outcome → Killed

-- The `do` loop of `task_kill` at `t`; `start` is the head of the list, `rounds` the scheduler's
-- fuel.
unfoldable pub kill_from : ℕ → ℕ → ℕ → ℕ → ℕ → ℕ → Kernel → Option Killed
kill_from zero rounds now start pid t s = none
kill_from (suc n) rounds now start pid t s =
    let next = (s.tasks t).next in
    let rest = kill_from n rounds now start pid next s in
    if (s.tasks t).pid == pid
    then if t == s.current
      then some (own_exit (task_exit rounds now s))
      else some (killed t (set_state t task_zombie s))
    else if next == start
    then some (no_such_task s)
    else rest

unfoldable pub task_kill : ℕ → ℕ → ℕ → ℕ → Kernel → Option Killed
task_kill fuel rounds now pid s = kill_from fuel rounds now s.task_list pid s.task_list s
