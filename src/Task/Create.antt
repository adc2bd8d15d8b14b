-- ===== src/Task/Create.antt =====
-- `task_create` of src/kernel/task.c and the ring of tasks.
use quantum_kernel.Memory.{kmalloc}
use quantum_kernel.Bytes.{Bytes, read32}
use quantum_kernel.Task.Loop.{others, rest}
use quantum_kernel.Task.Ring.{Walk, Ring, step}
use quantum_kernel.Task.{Kernel, task_create, store, new_task, sizeof_task, task_running}
use quantum_kernel.Prelude.{
  if◌then◌else◌, u32, ℕ, ◌+◌, ◌-◌, ◌^◌, ◌≤◌, ◌<◌, ◌≡◌, refl, sym, ap, ◌∙◌, ◌≢◌, Option, List, ◌∷◌,
  arith, ◌==◌,
}
use mathlib.Core.List.{Memᴰ, Nodup, Pairwise}
use mathlib.Core.Path.{subst}
use quantum_kernel.Bytes.Laws.{read32-write32}
use mathlib.Core.Logic.{∥∥₁_elim}
use mathlib.Core.HLevel.{⊥_prop}

-- The tasks form a ring from the head of the list, each below the heap pointer.
pub record IsTasks (s : Kernel) (ps : List ℕ) : Type 0 where
  pub ring : Ring s s.task_list ps
  pub below : (x : ℕ) → Memᴰ x ps → x < s.heap_ptr

pub Walk-tail :
    {next : ℕ → ℕ} {p x q : ℕ} {ps : List ℕ} → Walk next p (x ∷ ps) q → Walk next (next x) ps q
Walk-tail (step w) = w

Walk-ext :
    {next next' : ℕ → ℕ} {p q : ℕ} {ps : List ℕ}
    → ((x : ℕ) → Memᴰ x ps → next x ≡ next' x)
    → Walk next p ps q
    → Walk next' p ps q
Walk-ext h Walk.stop = Walk.stop
Walk-ext {next'} {q} {ps = p ∷ ps} h (step w) =
    step (
      subst (λ y. Walk next' y ps q) (h p (Memᴰ.head refl)) (Walk-ext (λ x m. h x (Memᴰ.tail m)) w))

-- The pointers once `t` is linked behind `head`.
linked : (ℕ → ℕ) → ℕ → ℕ → ℕ → ℕ
linked next head t q = if q == head then t else if q == t then next head else next q

Walk-linked :
    {next : ℕ → ℕ} {head t : ℕ} {ps : List ℕ}
    → head ≢ t
    → ((x : ℕ) → Memᴰ x ps → head ≢ x)
    → ((x : ℕ) → Memᴰ x ps → x ≢ t)
    → Walk next (next head) ps head
    → Walk (linked next head t) head (head ∷ t ∷ ps) head
unfolding linked
Walk-linked {next} {head} {t} {ps} apart other fresh w =
    let go : Walk (linked next head t) (next head) ps head =
      Walk-ext (λ x m. let a = other x m in let b = fresh x m in ground arith) w in
    let first_step : linked next head t head ≡ t = ground arith in
    let second_step : linked next head t t ≡ next head = ground arith in
    step (
      subst (λ y. Walk (linked next head t) y (t ∷ ps) head) (sym first_step)
        (step (subst (λ y. Walk (linked next head t) y ps head) (sym second_step) go)))

pub Nodup-cons : {p : ℕ} {ps : List ℕ} → ((x : ℕ) → Memᴰ x ps → p ≢ x) → Nodup ps → Nodup (p ∷ ps)
Nodup-cons h d = Pairwise.cons (λ x m e. ∥∥₁_elim m ⊥_prop (λ d'. h x d' e)) d

Nodup-linked :
    {head t : ℕ} {ps : List ℕ}
    → head ≢ t
    → ((x : ℕ) → Memᴰ x ps → t ≢ x)
    → Nodup (head ∷ ps)
    → Nodup (head ∷ t ∷ ps)
Nodup-linked {head} {t} {ps} apart fresh d = Nodup-cons other (Nodup-cons fresh (rest d))
  where
    other : (x : ℕ) → Memᴰ x (t ∷ ps) → head ≢ x
    other x (Memᴰ.head e) = λ h. apart (h ∙ e)
    other x (Memᴰ.tail m) = others d x m

below_linked :
    {head t b : ℕ} {ps : List ℕ}
    → head < b
    → t < b
    → ((x : ℕ) → Memᴰ x ps → x < b)
    → (x : ℕ) → Memᴰ x (head ∷ t ∷ ps)
    → x < b
below_linked h k l x (Memᴰ.head e) = rw e h
below_linked h k l x (Memᴰ.tail (Memᴰ.head e)) = rw e k
below_linked h k l x (Memᴰ.tail (Memᴰ.tail m)) = l x m

-- What `task_create` makes of a state whose list's head is `head`, at the address `t`.
module _ (entry : ℕ) (name : Option Bytes) (task_exit : ℕ) (s : Kernel) where
  created : Kernel
  created = (task_create entry name task_exit s).1

  created_next :
      s.task_list ≢ s.heap_ptr
      → (q : ℕ) → (created.tasks q).next ≡ linked (λ p. (s.tasks p).next) s.task_list s.heap_ptr q
  unfolding created task_create kmalloc store new_task linked
  created_next apart q = ground arith

  created_other : (q : ℕ) → q ≢ s.task_list → q ≢ s.heap_ptr → created.tasks q ≡ s.tasks q
  unfolding created task_create kmalloc store new_task
  created_other q a b = ground arith

  created_below :
      s.heap_ptr + sizeof_task + 4096 < 2 ^ 32 → created.heap_ptr ≡ s.heap_ptr + sizeof_task + 4096
  unfolding created task_create kmalloc store new_task
  created_below fits = omega arith

  created_list : created.task_list ≡ s.task_list
  unfolding created task_create kmalloc store new_task
  created_list = refl

-- The new task, at the address `t` of the state `s'`.
pub record IsNew (entry task_exit : ℕ) (s s' : Kernel) (t : ℕ) : Type 0 where
  pub runs_next : (s'.tasks s'.task_list).next ≡ t
  pub running : (s'.tasks t).state ≡ task_running
  pub starts_at : (s'.tasks t).eip ≡ entry
  pub named : (s'.tasks t).pid ≡ s.next_pid
  pub own_stack : (t + sizeof_task ≤ (s'.tasks t).esp) × ((s'.tasks t).esp + 4 ≡ s'.heap_ptr)
  pub exits : read32 s'.memory (s'.tasks t).esp ≡ task_exit

task_create-IsNew :
    (entry : ℕ) (name : Option Bytes) (task_exit : ℕ) (s : Kernel)
    → s.task_list ≢ s.heap_ptr
    → s.heap_ptr + sizeof_task + 4096 < 2 ^ 32
    → task_exit < 2 ^ 32
    → IsNew entry task_exit s (task_create entry name task_exit s).1 s.heap_ptr
unfolding task_create kmalloc store new_task
task_create-IsNew entry name task_exit s apart fits word =
    let top = u32 (u32 (u32 (s.heap_ptr + sizeof_task) + 4096) + (2 ^ 32 - 4)) in
    let e : ((task_create entry name task_exit s).1.tasks s.heap_ptr).esp ≡ top = ground arith in
    record {
      runs_next = ground arith;
      running = ground arith;
      starts_at = ground arith;
      named = ground arith;
      own_stack = (ground arith, ground arith);
      exits =
          ap (read32 (task_create entry name task_exit s).1.memory) e
          ∙ read32-write32 s.memory top task_exit word;
    }

-- On a ring of tasks below the heap pointer, with room for the new one below 2 ^ 32: `task_create`
-- links the new task behind the head of the list, so the ring has every task once again and stays
-- below the heap pointer; the new task runs, has the next `pid`, starts at the entry, and its stack,
-- behind the `task_t`, holds the address of `task_exit`; no other task but the head changes.
pub task_create_lem :
    (entry : ℕ) (name : Option Bytes) (task_exit : ℕ) (s : Kernel) (ps : List ℕ)
    → IsTasks s (s.task_list ∷ ps)
    → s.heap_ptr + sizeof_task + 4096 < 2 ^ 32
    → task_exit < 2 ^ 32
    → (let o = task_create entry name task_exit s in
        IsTasks o.1 (s.task_list ∷ o.0 ∷ ps)
        × IsNew entry task_exit s o.1 o.0
        × ((x : ℕ) → Memᴰ x ps → o.1.tasks x ≡ s.tasks x))
unfolding created task_create kmalloc store new_task
task_create_lem entry name task_exit s ps h fits word =
    let head_below = h.below s.task_list (Memᴰ.head refl) in
    let apart : s.task_list ≢ s.heap_ptr = λ e. absurd (omega (arith, e)) in
    let fresh : (x : ℕ) → Memᴰ x ps → x ≢ s.heap_ptr =
      λ x m e. let b = h.below x (Memᴰ.tail m) in absurd (omega (arith, e)) in
    let other = others h.ring.distinct in
    let behind : Walk h.ring.next (s.tasks s.task_list).next ps s.task_list =
      subst (λ y. Walk h.ring.next y ps s.task_list) (sym (h.ring.follows s.task_list))
        (Walk-tail h.ring.walk) in
    (
      record {
        ring = record {
          next = linked (λ p. (s.tasks p).next) s.task_list s.heap_ptr;
          follows = created_next entry name task_exit s apart;
          walk = Walk-linked apart other fresh (Walk-ext (λ x m. sym (h.ring.follows x)) behind);
          distinct = Nodup-linked apart (λ x m e. fresh x m (sym e)) h.ring.distinct;
          some_task = omega arith;
        };
        below =
            below_linked (omega arith) (omega arith)
              (λ x m. let b = h.below x (Memᴰ.tail m) in omega (arith, b));
      },
      task_create-IsNew entry name task_exit s apart fits word,
      λ x m. created_other entry name task_exit s x (λ e. other x m (sym e)) (fresh x m),
    )
