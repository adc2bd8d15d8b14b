-- ===== src/Task/Kill.antt =====
-- `task_kill` of src/kernel/task.c on a ring of tasks.
use quantum_kernel.Task.Create.{Walk-tail}
use quantum_kernel.Task.Loop.{fuel, fuel-length, others}
use quantum_kernel.Task.{set_state, task_zombie}
use quantum_kernel.Task.Choice.{first}
use quantum_kernel.Task.Schedule.{
  kill_from, Killed, no_such_task, own_exit, task_exit, killed, task_kill,
}
use quantum_kernel.Task.Ring.{Walk, step, Follows, Ring}
use quantum_kernel.Task.{Kernel}
use quantum_kernel.Prelude.{
  if◌then◌else◌, Bool-cases, length, ℕ, suc, ◌+◌, ◌≡◌, refl, sym, ap, ◌∙◌, ◌≢◌, inl, inr, Bool,
  true, false, Option, none, some, List, [], ◌∷◌, arith, ◌==◌,
}
use mathlib.Core.List.{Memᴰ}

pub has_pid : ℕ → Kernel → ℕ → Bool
has_pid pid s p = (s.tasks p).pid == pid

-- What becomes of the task found.
pub strike : ℕ → ℕ → Kernel → Option ℕ → Killed
strike rounds now s none = no_such_task s
strike rounds now s (some t) =
    if t == s.current
    then own_exit (task_exit rounds now s)
    else killed t (set_state t task_zombie s)

Walk-head : {next : ℕ → ℕ} {p x q : ℕ} {ps : List ℕ} → Walk next p (x ∷ ps) q → p ≡ x
Walk-head (step w) = refl

Walk-end : {next : ℕ → ℕ} {p q : ℕ} → Walk next p [] q → p ≡ q
Walk-end Walk.stop = refl

module _ (rounds now start pid : ℕ) (s : Kernel) (n p : ℕ) where
  kill_found :
      has_pid pid s p ≡ true
      → kill_from (suc n) rounds now start pid p s ≡ some (strike rounds now s (some p))
  unfolding kill_from has_pid strike
  kill_found h = ground arith

  kill_last :
      has_pid pid s p ≡ false
      → (s.tasks p).next ≡ start
      → kill_from (suc n) rounds now start pid p s ≡ some (no_such_task s)
  unfolding kill_from has_pid
  kill_last h e = ground arith

  kill_on :
      (q : ℕ)
      → has_pid pid s p ≡ false
      → (s.tasks p).next ≡ q
      → start ≢ q
      → kill_from (suc n) rounds now start pid p s ≡ kill_from n rounds now start pid q s
  unfolding kill_from has_pid
  kill_on q h e apart =
      let other : ((s.tasks p).next == start) ≡ false = ground arith in
      simp (h, other) (ap (λ x. kill_from n rounds now start pid x s) e)

first_here : (f : ℕ → Bool) (p : ℕ) (ps : List ℕ) → f p ≡ true → first f (p ∷ ps) ≡ some p
unfolding first
first_here f p ps h = rw h refl

first_later : (f : ℕ → Bool) (p : ℕ) (ps : List ℕ) → f p ≡ false → first f (p ∷ ps) ≡ first f ps
unfolding first
first_later f p ps h = rw h refl

kill_from_lem :
    (ps : List ℕ) (n rounds now start pid p : ℕ) (s : Kernel) {next : ℕ → ℕ}
    → Follows s next
    → Walk next (next p) ps start
    → ((x : ℕ) → Memᴰ x ps → start ≢ x)
    → kill_from (fuel (p ∷ ps) n) rounds now start pid p s
      ≡ some (strike rounds now s (first (has_pid pid s) (p ∷ ps)))
unfolding strike first
kill_from_lem [] n rounds now start pid p s h w away = elim (Bool-cases (has_pid pid s p)) [
  | inl here ↦
      kill_found rounds now start pid s (fuel [] n) p here
      ∙ ap (λ o. some (strike rounds now s o)) (sym (first_here (has_pid pid s) p [] here))
  | inr other ↦
      kill_last rounds now start pid s n p other (h p ∙ Walk-end w)
      ∙ ap (λ o. some (strike rounds now s o)) (sym (first_later (has_pid pid s) p [] other))
]
kill_from_lem (q ∷ ps) n rounds now start pid p s h w away =
    let later =
      kill_from_lem ps n rounds now start pid q s h (Walk-tail w) (λ x m. away x (Memᴰ.tail m)) in
    elim (Bool-cases (has_pid pid s p)) [
      | inl here ↦
          kill_found rounds now start pid s (fuel (q ∷ ps) n) p here
          ∙ ap (λ o. some (strike rounds now s o))
              (sym (first_here (has_pid pid s) p (q ∷ ps) here))
      | inr other ↦
          kill_on rounds now start pid s (fuel (q ∷ ps) n) p q other (h p ∙ Walk-head w)
            (away q (Memᴰ.head refl))
          ∙ later
          ∙ ap (λ o. some (strike rounds now s o))
              (sym (first_later (has_pid pid s) p (q ∷ ps) other))
    ]

-- On a ring of tasks, with a round for each: `task_kill` ends. From the head of the list on it finds
-- the first task with the `pid`, makes it a zombie and changes nothing else, or exits when that is
-- the current task; it returns -1 exactly when no task has the `pid`.
pub task_kill_lem :
    (n rounds now pid : ℕ) (s : Kernel) (ps : List ℕ)
    → Ring s s.task_list (s.task_list ∷ ps)
    → task_kill (length (s.task_list ∷ ps) + n) rounds now pid s
      ≡ some (strike rounds now s (first (has_pid pid s) (s.task_list ∷ ps)))
unfolding task_kill
task_kill_lem n rounds now pid s ps ring = rw (sym (fuel-length (s.task_list ∷ ps) n)) (
    kill_from_lem ps n rounds now s.task_list pid s.task_list s ring.follows (Walk-tail ring.walk)
      (others ring.distinct))
