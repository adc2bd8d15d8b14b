-- ===== src/Task/Tests.antt =====
-- A kernel with two tasks, and the theorems about the ring there.
use quantum_kernel.Task.Kill.{strike, has_pid, task_kill_lem}
use quantum_kernel.Task.Turns.{task_schedule_lem}
use quantum_kernel.Task.Choice.{choose, first}
use quantum_kernel.Bytes.{zeros}
use quantum_kernel.Memory.{heap_start, kmalloc}
use quantum_kernel.Task.Schedule.{task_schedule, switch_to, task_kill}
use quantum_kernel.Task.Ring.{Ring, step, Walk}
use quantum_kernel.Task.Create.{Nodup-cons, IsTasks, IsNew, task_create_lem}
use quantum_kernel.Task.{Kernel, blank, task_create, task_sleeping}
use mathlib.Core.Option
use quantum_kernel.Prelude.{ℕ, ◌<◌, ◌≡◌, refl, none, [], ◌∷◌, arith, some}
use mathlib.Core.List.{Memᴰ, Nodup, Pairwise}

-- `kernel_task`, in the kernel's image.
abbrev first_task : ℕ
first_task = 0x100000

abbrev pub booted : Kernel
booted = record {
  current = first_task;
  task_list = first_task;
  next_pid = 1;
  tasks = λ p. record blank { page_ctx = 0x1000000; next = first_task };
  memory = zeros;
  heap_ptr = heap_start;
  kernel_page_context = 0x1000000;
  current_context = 0x1000000;
}

one-distinct : Nodup (first_task ∷ [])
one-distinct = Nodup-cons (λ x m e. elim m [ ]) Pairwise.nil

booted-Ring : Ring booted first_task (first_task ∷ [])
booted-Ring = record {
  next = λ p. first_task;
  follows = λ p. refl;
  walk = step Walk.stop;
  distinct = one-distinct;
  some_task = omega arith;
}

below_heap : (x : ℕ) → Memᴰ x (first_task ∷ []) → x < booted.heap_ptr
below_heap x (Memᴰ.head e) = rw e (omega arith)
below_heap x (Memᴰ.tail m) = elim m [ ]

booted-IsTasks : IsTasks booted (first_task ∷ [])
booted-IsTasks = record { ring = booted-Ring; below = below_heap }

-- A second task, made from the first, which then sleeps until tick 50.
abbrev two_tasks : Kernel
two_tasks = (task_create 0x400000 none 0x101234 booted).1

task_create_lem_example :
    IsTasks two_tasks (first_task ∷ heap_start ∷ [])
    × IsNew 0x400000 0x101234 booted two_tasks heap_start
    × ((x : ℕ) → Memᴰ x [] → two_tasks.tasks x ≡ booted.tasks x)
unfolding task_create kmalloc
task_create_lem_example =
    task_create_lem 0x400000 none 0x101234 booted [] booted-IsTasks (omega arith) (omega arith)

asleep : Kernel
asleep = record booted {
  tasks = λ p. record (booted.tasks p) { state = task_sleeping; wakeup_tick = 50 };
}

asleep-Ring : Ring asleep first_task (first_task ∷ [])
unfolding asleep
asleep-Ring = record {
  next = λ p. first_task;
  follows = λ p. refl;
  walk = step Walk.stop;
  distinct = one-distinct;
  some_task = omega arith;
}

-- Before tick 50 the only task sleeps, and the scheduler does not end.
task_schedule_lem_example :
    (task_schedule 3 40 asleep
      ≡ Option.map (switch_to first_task) (choose 40 (first_task ∷ []) asleep))
    × (choose 40 (first_task ∷ []) asleep ≡ none → (m : ℕ) → task_schedule m 40 asleep ≡ none)
unfolding asleep
task_schedule_lem_example = task_schedule_lem 40 1 (first_task ∷ []) asleep asleep-Ring

task_kill_lem_example :
    task_kill 1 3 40 0 booted
    ≡ some (strike 3 40 booted (first (has_pid 0 booted) (first_task ∷ [])))
task_kill_lem_example = task_kill_lem 0 3 40 0 booted [] booted-Ring
