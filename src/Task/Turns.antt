-- ===== src/Task/Turns.antt =====
-- The whole choice of src/kernel/scheduler.c: up to two turns round the ring, or no end.
use mathlib.Core.Option
use quantum_kernel.Task.Ring.{Walk, Follows, step, Ring}
use quantum_kernel.Task.Loop.{
  others, fuel, find_next_round, rest, stops, skip, wake_all-Follows, fuel-length,
}
use quantum_kernel.Task.Schedule.{wake, find_next, is_due, task_schedule, switch_to}
use quantum_kernel.Task.{Kernel, is_running}
use quantum_kernel.Task.Choice.{
  wake_all, runs, due, wake_other, wake_none, choose, wake_running, wake-due, first, first_none,
  first_ext, before, before_mem,
}
use quantum_kernel.Prelude.{
  Option-cases, length, ℕ, zero, suc, ◌+◌, ◌*◌, ◌<◌, ◌≡◌, refl, sym, ap, ◌∙◌, ◌≢◌, ◌⊎◌, inl, inr,
  false, ◌||◌, none, some, List, [], ◌∷◌, arith,
}
use mathlib.Core.Path.{subst}
use mathlib.Core.List.{Memᴰ, Nodup}

wake_all_other :
    (now : ℕ) (ps : List ℕ) (s : Kernel) (x : ℕ)
    → ((y : ℕ) → Memᴰ y ps → x ≢ y)
    → (wake_all now ps s).tasks x ≡ s.tasks x
unfolding wake_all
wake_all_other now [] s x h = refl
wake_all_other now (p ∷ ps) s x h =
    wake_all_other now ps (wake now p s) x (λ y m. h y (Memᴰ.tail m))
    ∙ wake_other now p s x (λ e. h p (Memᴰ.head refl) (sym e))

-- Awake: once its turn has come, a task runs when it ran or was due, and is due no more.
Awake : ℕ → Kernel → Kernel → ℕ → Type 0
Awake now s s' x = (runs s' x ≡ (runs s x || due now s x)) × (due now s' x ≡ false)

wake_all-Awake :
    (now : ℕ) (ps : List ℕ) (s : Kernel)
    → Nodup ps
    → (x : ℕ) → Memᴰ x ps
    → Awake now s (wake_all now ps s) x
unfolding wake_all Awake runs due
wake_all-Awake now [] s d x m = elim m [ ]
wake_all-Awake now (p ∷ ps) s d x (Memᴰ.head e) =
    let q : (wake_all now ps (wake now p s)).tasks p ≡ (wake now p s).tasks p =
      wake_all_other now ps (wake now p s) p (others d) in
    subst (λ y. Awake now s (wake_all now ps (wake now p s)) y) (sym e)
      (ap (λ t. is_running t.state) q ∙ wake_running now p s, ap (is_due now) q ∙ wake-due now p s)
wake_all-Awake now (p ∷ ps) s d x (Memᴰ.tail m) =
    let q : (wake now p s).tasks x ≡ s.tasks x = wake_other now p s x (others d x m) in
    let (r, e) = wake_all-Awake now ps (wake now p s) (rest d) x m in
    (r ∙ ap (λ t. is_running t.state || is_due now t) q, e)

wake_all_none :
    (now : ℕ) (ps : List ℕ) (s : Kernel)
    → ((x : ℕ) → Memᴰ x ps → due now s x ≡ false)
    → wake_all now ps s ≡ s
unfolding wake_all
wake_all_none now [] s h = refl
wake_all_none now (p ∷ ps) s h =
    let e = wake_none now p s (h p (Memᴰ.head refl)) in
    ap (wake_all now ps) e ∙ wake_all_none now ps s (λ x m. h x (Memᴰ.tail m))

-- When there is neither, no number of rounds is.
pub spins :
    (now n : ℕ) (ps : List ℕ) (q : ℕ) (s : Kernel) {next : ℕ → ℕ}
    → Follows s next
    → ((x : ℕ) → Memᴰ x ps → Memᴰ (next x) ps)
    → ((x : ℕ) → Memᴰ x ps → runs s x ≡ false)
    → ((x : ℕ) → Memᴰ x ps → due now s x ≡ false)
    → Memᴰ q ps
    → find_next n now q s ≡ none
unfolding find_next
spins now zero ps q s h closed idle asleep m = refl
spins now (suc n) ps q s {next} h closed idle asleep m =
    find_next_round n now q s h (idle q m)
    ∙ ap (find_next n now (next q)) (wake_none now q s (asleep q m))
    ∙ spins now n ps (next q) s h closed idle asleep (closed q m)

-- The ring is closed under `next`.
Walk-start : {next : ℕ → ℕ} {p q : ℕ} {ps : List ℕ} → Walk next p ps q → Memᴰ p ps ⊎ (p ≡ q)
Walk-start Walk.stop = inr refl
Walk-start (step w) = inl (Memᴰ.head refl)

Walk-next :
    {next : ℕ → ℕ} {p q : ℕ} {ps : List ℕ}
    → Walk next p ps q
    → (x : ℕ) → Memᴰ x ps
    → Memᴰ (next x) ps ⊎ (next x ≡ q)
Walk-next Walk.stop x m = elim m [ ]
Walk-next {next} {ps = p ∷ ps} (step w) x (Memᴰ.head e) = elim (Walk-start w) [
  | inl m ↦ inl (Memᴰ.tail (subst (λ y. Memᴰ y ps) (ap next (sym e)) m))
  | inr e' ↦ inr (ap next e ∙ e')
]
Walk-next (step w) x (Memᴰ.tail m) = elim (Walk-next w x m) [
  | inl m' ↦ inl (Memᴰ.tail m')
  | inr e ↦ inr e
]

Walk-nonempty :
    {next : ℕ → ℕ} {p q : ℕ} {ps : List ℕ} → Walk next p ps q → (x : ℕ) → Memᴰ x ps → Memᴰ p ps
Walk-nonempty Walk.stop x m = elim m [ ]
Walk-nonempty (step w) x m = Memᴰ.head refl

pub Walk-closed :
    {next : ℕ → ℕ} {p : ℕ} {ps : List ℕ} → Walk next p ps p → (x : ℕ) → Memᴰ x ps → Memᴰ (next x) ps
Walk-closed {ps} w x m = elim (Walk-next w x m) [
  | inl m' ↦ m'
  | inr e ↦ subst (λ y. Memᴰ y ps) (sym e) (Walk-nonempty w x m)
]

member-Walk : {next : ℕ → ℕ} {p q : ℕ} {ps : List ℕ} → Walk next p ps q → 0 < length ps → Memᴰ p ps
member-Walk Walk.stop h = absurd (omega arith)
member-Walk (step w) h = Memᴰ.head refl

choose_nobody :
    (now : ℕ) (ps : List ℕ) (s : Kernel)
    → first (runs s) ps ≡ none
    → first (due now s) ps ≡ none
    → none ≡ choose now ps s
unfolding choose
choose_nobody now ps s h k = ground arith

choose_running :
    (now r : ℕ) (ps : List ℕ) (s : Kernel)
    → first (runs s) ps ≡ some r
    → some (r, wake_all now (before (runs s) ps) s) ≡ choose now ps s
unfolding choose
choose_running now r ps s h = ground arith

choose-due :
    (now r : ℕ) (ps : List ℕ) (s : Kernel)
    → first (runs s) ps ≡ none
    → first (due now s) ps ≡ some r
    → some (r, wake_all now ps s) ≡ choose now ps s
unfolding choose
choose-due now r ps s h k = ground arith

-- Two turns are enough for a task that runs or is due, and without one no number of rounds is.
pub two_turns :
    (now n : ℕ) (ps : List ℕ) {p : ℕ} (s : Kernel) {next : ℕ → ℕ}
    → Follows s next
    → Walk next p ps p
    → Nodup ps
    → Memᴰ p ps
    → find_next (fuel ps (fuel ps n)) now p s ≡ choose now ps s
unfolding choose Awake
two_turns now n ps {p} s {next} h w d member = elim (Option-cases (first (runs s) ps)) [
  | inr (r, running) ↦
      stops ps (fuel ps n) now r s h w d running ∙ choose_running now r ps s running
  | inl idle ↦
      let woken = wake_all now ps s in
      let awake = wake_all-Awake now ps s d in
      let one_turn = skip ps (fuel ps n) now s h w d (first_none (runs s) ps idle) in
      let due_runs : (x : ℕ) → Memᴰ x ps → runs woken x ≡ due now s x =
        λ x m. (awake x m).0 ∙ ap (λ b. b || due now s x) (first_none (runs s) ps idle x m) in
      elim (Option-cases (first (due now s) ps)) [
        | inl nobody ↦
            spins now (fuel ps (fuel ps n)) ps p s h (Walk-closed w) (first_none (runs s) ps idle)
              (first_none (due now s) ps nobody) member
            ∙ choose_nobody now ps s idle nobody
        | inr (r, found) ↦
            one_turn
            ∙ stops ps n now r woken (wake_all-Follows now ps s next h) w d
                (first_ext ps due_runs ∙ found)
            ∙ ap (λ t. some (r, t))
                (wake_all_none now (before (runs woken) ps) woken
                  (λ x m. (awake x (before_mem _ ps x m)).1))
            ∙ choose-due now r ps s idle found
      ]
]

choose-none :
    (now : ℕ) (ps : List ℕ) (s : Kernel)
    → choose now ps s ≡ none
    → (first (runs s) ps ≡ none) × (first (due now s) ps ≡ none)
unfolding choose
choose-none now ps s h = ground arith

-- On a ring of tasks: `task_schedule` takes two turns at most, and goes to the first task behind the
-- current one that runs, or else to the first that is due; the due sleepers that it passes on the
-- way run from then on. When no task runs and none is due, the current one included, it never ends.
pub task_schedule_lem :
    (now n : ℕ) (ps : List ℕ) (s : Kernel)
    → Ring s (s.tasks s.current).next ps
    → (task_schedule (2 * length ps + n) now s ≡ Option.map (switch_to s.current) (choose now ps s))
      × (choose now ps s ≡ none → (m : ℕ) → task_schedule m now s ≡ none)
unfolding task_schedule
task_schedule_lem now n ps s ring =
    let e : 2 * length ps + n ≡ fuel ps (fuel ps n) =
      omega (arith, fuel-length ps n, fuel-length ps (fuel ps n)) in
    let here = member-Walk ring.walk ring.some_task in
    (
      rw (e, two_turns now n ps s ring.follows ring.walk ring.distinct here) refl,
      λ h m.
          let (idle, nobody) = choose-none now ps s h in
          ap (Option.map (switch_to s.current)) (
            spins now m ps (s.tasks s.current).next s ring.follows (Walk-closed ring.walk)
              (first_none (runs s) ps idle) (first_none (due now s) ps nobody) here),
    )
