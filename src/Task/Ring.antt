-- ===== src/Task/Ring.antt =====
-- The ring of tasks of src/kernel/task.c as a list of addresses.
use quantum_kernel.Task.{Kernel}
use quantum_kernel.Prelude.{length, ℕ, ◌<◌, ◌≡◌, List, [], ◌∷◌}
use mathlib.Core.List.{Nodup}

-- The `next` pointers lead from `p` through the addresses listed to `q`.
pub data Walk (next : ℕ → ℕ) : ℕ → List ℕ → ℕ → Type 0 where
  stop : {p : ℕ} → Walk next p [] p
  step : {p q : ℕ} {ps : List ℕ} → Walk next (next p) ps q → Walk next p (p ∷ ps) q

-- The pointers of a state are those given.
abbrev pub Follows : Kernel → (ℕ → ℕ) → Type 0
Follows s next = (p : ℕ) → (s.tasks p).next ≡ next p

-- The tasks from `p` round to `p` again, each once.
pub record Ring (s : Kernel) (p : ℕ) (ps : List ℕ) : Type 0 where
  pub next : ℕ → ℕ
  pub follows : Follows s next
  pub walk : Walk next p ps p
  pub distinct : Nodup ps
  pub some_task : 0 < length ps
