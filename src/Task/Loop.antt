-- ===== src/Task/Loop.antt =====
-- The loop of src/kernel/scheduler.c along a ring.
use quantum_kernel.Task.{Kernel}
use quantum_kernel.Task.Schedule.{find_next, wake}
use quantum_kernel.Task.Choice.{
  wake_all, runs, first, before, wake-runs_other, wake_next, first_ext, before_ext,
}
use quantum_kernel.Task.Ring.{Follows, Walk, step}
use quantum_kernel.Prelude.{
  Bool-cases, length, ℕ, suc, ◌+◌, ◌≡◌, refl, ap, ◌∙◌, ◌≢◌, inl, inr, true, false, some, List, [],
  ◌∷◌, arith,
}
use mathlib.Core.List.{Memᴰ, Nodup, Pairwise}

wake-Follows :
    (now p : ℕ) (s : Kernel) (next : ℕ → ℕ) → Follows s next → Follows (wake now p s) next
wake-Follows now p s next h q = wake_next now p _ q ∙ h q

pub wake_all-Follows :
    (now : ℕ) (ps : List ℕ) (s : Kernel) (next : ℕ → ℕ)
    → Follows s next
    → Follows (wake_all now ps s) next
unfolding wake_all
wake_all-Follows now [] s next h = h
wake_all-Follows now (p ∷ ps) s next h = wake_all-Follows now ps _ _ (wake-Follows now p _ _ h)

-- A round for each task listed, and `n` more.
abbrev pub fuel : List ℕ → ℕ → ℕ
fuel [] n = n
fuel (_ ∷ ps) n = suc (fuel ps n)

pub fuel-length : (ps : List ℕ) (n : ℕ) → fuel ps n ≡ length ps + n
fuel-length [] n = omega arith
fuel-length (_ ∷ ps) n = omega (arith, fuel-length ps n)

-- One round that does not stop.
pub find_next_round :
    (n now p : ℕ) (s : Kernel) {next : ℕ → ℕ}
    → Follows s next
    → runs s p ≡ false
    → find_next (suc n) now p s ≡ find_next n now (next p) (wake now p s)
unfolding find_next runs
find_next_round n now p s h idle =
    simp idle (ap (λ q. find_next n now q (wake now p s)) (wake-Follows now p _ _ h p))

find_next_stop :
    (n now p : ℕ) (s : Kernel) → runs s p ≡ true → find_next (suc n) now p s ≡ some (p, s)
unfolding find_next runs
find_next_stop n now p s running = rw running refl

-- The tasks of the rest of a ring are other tasks.
pub others : {p : ℕ} {ps : List ℕ} → Nodup (p ∷ ps) → (x : ℕ) → Memᴰ x ps → p ≢ x
others (Pairwise.cons h d) x m = h x ∣ m ∣₁

pub rest : {p : ℕ} {ps : List ℕ} → Nodup (p ∷ ps) → Nodup ps
rest (Pairwise.cons h d) = d

-- Along tasks none of which runs, the loop goes on and wakes those that are due.
pub skip :
    (ps : List ℕ) (n now : ℕ) {p q : ℕ} (s : Kernel) {next : ℕ → ℕ}
    → Follows s next
    → Walk next p ps q
    → Nodup ps
    → ((x : ℕ) → Memᴰ x ps → runs s x ≡ false)
    → find_next (fuel ps n) now p s ≡ find_next n now q (wake_all now ps s)
unfolding wake_all
skip [] n now s h Walk.stop d idle = refl
skip (p ∷ ps) n now s h (step w) d idle =
    find_next_round (fuel ps n) now p s h (idle p (Memᴰ.head refl))
    ∙ skip ps n now (wake now p s) (wake-Follows now p _ _ h) w (rest d)
        (λ x m. wake-runs_other now p s x (others d x m) ∙ idle x (Memᴰ.tail m))

-- It stops at the first task that runs.
pub stops :
    (ps : List ℕ) (n now r : ℕ) {p q : ℕ} (s : Kernel) {next : ℕ → ℕ}
    → Follows s next
    → Walk next p ps q
    → Nodup ps
    → first (runs s) ps ≡ some r
    → find_next (fuel ps n) now p s ≡ some (r, wake_all now (before (runs s) ps) s)
unfolding first before wake_all
stops [] n now r s h Walk.stop d found = absurd (cc found)
stops (p ∷ ps) n now r s {next} h (step w) d found = elim (Bool-cases (runs s p)) [
  | inl running ↦
      let e : p ≡ r = ground arith in
      find_next_stop (fuel ps n) now p s running ∙ rw (running, e) refl
  | inr idle ↦
      let same : (x : ℕ) → Memᴰ x ps → runs (wake now p s) x ≡ runs s x =
        λ x m. wake-runs_other now p s x (others d x m) in
      let found' : first (runs s) ps ≡ some r = ground arith in
      let later =
        stops ps n now r (wake now p s) (wake-Follows now p s next h) w (rest d)
          (first_ext ps same ∙ found') in
      find_next_round (fuel ps n) now p s h idle ∙ later ∙ rw (idle, before_ext ps same) refl
]
