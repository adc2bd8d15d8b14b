-- ===== src/Task/Choice.antt =====
-- What src/kernel/scheduler.c's loop chooses, said of the ring as a list.
use quantum_kernel.Task.Schedule.{wake, is_due}
use quantum_kernel.Task.{
  task_sleeping, task_zombie, Kernel, is_running, set_state, store, is_sleeping, TaskState,
  task_running,
}
use quantum_kernel.Prelude.{
  leb, if◌then◌else◌, ℕ, ◌≡◌, refl, ap, ◌∙◌, ◌≢◌, Bool, true, false, ◌&&◌, ◌||◌, Option, none, some,
  List, [], ◌∷◌, arith,
}
use mathlib.Core.List.{Memᴰ}

-- The first element that passes, and those before it.
unfoldable pub first : (ℕ → Bool) → List ℕ → Option ℕ
first f [] = none
first f (p ∷ ps) = if f p then some p else first f ps

unfoldable pub before : (ℕ → Bool) → List ℕ → List ℕ
before f [] = []
before f (p ∷ ps) = if f p then [] else p ∷ before f ps

unfoldable pub runs : Kernel → ℕ → Bool
runs s p = is_running (s.tasks p).state

unfoldable pub due : ℕ → Kernel → ℕ → Bool
due now s p = is_due now (s.tasks p)

-- Every sleeper among the tasks listed whose time has come runs.
unfoldable pub wake_all : ℕ → List ℕ → Kernel → Kernel
wake_all now [] s = s
wake_all now (p ∷ ps) s = wake_all now ps (wake now p s)

-- The first task that runs, the due sleepers before it woken; when none runs, the first due
-- sleeper, all of them woken; when there is neither, no task.
unfoldable pub choose : ℕ → List ℕ → Kernel → Option (ℕ × Kernel)
choose now ps s = elim (first (runs s) ps) [
  | some p ↦ some (p, wake_all now (before (runs s) ps) s)
  | none ↦ elim (first (due now s) ps) [ some p ↦ some (p, wake_all now ps s) | none ↦ none ]
]

pub wake_next : (now p : ℕ) (s : Kernel) (q : ℕ) → ((wake now p s).tasks q).next ≡ (s.tasks q).next
unfolding wake set_state store
wake_next now p s q = ground arith

pub wake_none : (now p : ℕ) (s : Kernel) → due now s p ≡ false → wake now p s ≡ s
unfolding wake due
wake_none now p s h = rw h refl

pub wake_other : (now p : ℕ) (s : Kernel) (q : ℕ) → p ≢ q → (wake now p s).tasks q ≡ s.tasks q
unfolding wake set_state store
wake_other now p s q h = ground arith

-- The state of a task after its turn in the loop.
unfoldable woken_state : Bool → TaskState → TaskState
woken_state b x = if is_sleeping x && b then task_running else x

is_running-woken_state :
    (b : Bool) (x : TaskState) → is_running (woken_state b x) ≡ (is_running x || is_sleeping x && b)
unfolding woken_state is_running is_sleeping
is_running-woken_state b task_running = refl
is_running-woken_state true task_sleeping = refl
is_running-woken_state false task_sleeping = refl
is_running-woken_state b task_zombie = refl

is_sleeping-woken_state : (b : Bool) (x : TaskState) → (is_sleeping (woken_state b x) && b) ≡ false
unfolding woken_state is_sleeping
is_sleeping-woken_state b task_running = refl
is_sleeping-woken_state true task_sleeping = refl
is_sleeping-woken_state false task_sleeping = refl
is_sleeping-woken_state b task_zombie = refl

wake_state :
    (now p : ℕ) (s : Kernel)
    → ((wake now p s).tasks p).state
      ≡ woken_state (leb (s.tasks p).wakeup_tick now) (s.tasks p).state
unfolding wake set_state store is_due woken_state
wake_state now p s = ground arith

wake_tick :
    (now p : ℕ) (s : Kernel) → ((wake now p s).tasks p).wakeup_tick ≡ (s.tasks p).wakeup_tick
unfolding wake set_state store
wake_tick now p s = ground arith

pub wake_running : (now p : ℕ) (s : Kernel) → runs (wake now p s) p ≡ (runs s p || due now s p)
unfolding runs due is_due
wake_running now p s = rw (wake_state now p s) (is_running-woken_state _ _)

pub wake-due : (now p : ℕ) (s : Kernel) → due now (wake now p s) p ≡ false
unfolding due is_due
wake-due now p s = rw (wake_state now p s, wake_tick now p s) (is_sleeping-woken_state _ _)

pub wake-runs_other : (now p : ℕ) (s : Kernel) (q : ℕ) → p ≢ q → runs (wake now p s) q ≡ runs s q
unfolding runs
wake-runs_other now p s q h = ap (λ t. is_running t.state) (wake_other now p s q h)

pub first_ext :
    {f g : ℕ → Bool} (ps : List ℕ) → ((x : ℕ) → Memᴰ x ps → f x ≡ g x) → first f ps ≡ first g ps
unfolding first
first_ext [] h = refl
first_ext (p ∷ ps) h = rw (h p (Memᴰ.head refl), first_ext ps (λ x m. h x (Memᴰ.tail m))) refl

pub before_ext :
    {f g : ℕ → Bool} (ps : List ℕ) → ((x : ℕ) → Memᴰ x ps → f x ≡ g x) → before f ps ≡ before g ps
unfolding before
before_ext [] h = refl
before_ext (p ∷ ps) h = rw (h p (Memᴰ.head refl), before_ext ps (λ x m. h x (Memᴰ.tail m))) refl

pub before_mem : (f : ℕ → Bool) (ps : List ℕ) (x : ℕ) → Memᴰ x (before f ps) → Memᴰ x ps
unfolding before
before_mem f [] x m = m
before_mem f (p ∷ ps) x m = mem_step (f p) (before_mem f ps x) m
  where
    mem_step :
        {r s : List ℕ}
        → (b : Bool) → (Memᴰ x r → Memᴰ x s)
        → Memᴰ x (if b then [] else p ∷ r)
        → Memᴰ x (p ∷ s)
    mem_step true h m = elim m [ ]
    mem_step false h (Memᴰ.head e) = Memᴰ.head e
    mem_step false h (Memᴰ.tail m') = Memᴰ.tail (h m')

pub first_none :
    (f : ℕ → Bool) (ps : List ℕ) → first f ps ≡ none → (x : ℕ) → Memᴰ x ps → f x ≡ false
unfolding first
first_none f [] h x m = elim m [ ]
first_none f (p ∷ ps) h x (Memᴰ.head e) = let q : f p ≡ false = ground arith in ap f e ∙ q
first_none f (p ∷ ps) h x (Memᴰ.tail m) =
    let q : first f ps ≡ none = ground arith in first_none f ps q x m
