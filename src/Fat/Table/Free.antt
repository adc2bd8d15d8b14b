-- ===== src/Fat/Table/Free.antt =====
-- `fat32_free_cluster_chain` of src/fs/fat32.c ends on every table, cyclic ones included, and frees
-- the clusters of the chain and no other.
use quantum_kernel.Fat.Table.Entries.{clusters-lt}
use mathlib.Core.Path.{subst}
use quantum_kernel.Prelude.{
  ℕ, zero, suc, if◌then◌else◌, ◌≤◌, ◌<◌, ◌≡◌, inr, arith, ◌==◌, ◌≢◌, ◌⊎◌, refl, ◌+◌, Bool-cases,
  inl, some, ==_iff, Bool, true, leb, false, ◌&&◌, ltb, ◌∙◌, u32,
}
use quantum_kernel.Fat.{Fs, State, IsMounted, free_cluster, eoc_min}
use quantum_kernel.Fat.Table.{read_fat, write_fat, free_cluster_chain}
use quantum_kernel.Fat.Table.View.{
  Holds, Keeps, InRange, put, read_fat-lookup, write_fat-put, Keeps-trans, Keeps-refl,
}

-- Following the entries of `t` from cluster `c` leads to `d`.
pub data Reaches (f : Fs) (t : ℕ → ℕ) : ℕ → ℕ → Type 0 where
  here : {c : ℕ} → InRange f c → Reaches f t c c
  next : {c d : ℕ} → InRange f c → Reaches f t (t c) d → Reaches f t c d

-- How many of the clusters below `n` are in use.
abbrev pub used : (ℕ → ℕ) → ℕ → ℕ
used t zero = 0
used t (suc n) = (if t n == 0 then 0 else 1) + used t n

used-le : (t : ℕ → ℕ) (n : ℕ) → used t n ≤ n
used-le t zero = omega arith
used-le t (suc n) = ground (arith, used-le t n)

used-put_above : (t : ℕ → ℕ) (c v n : ℕ) → n ≤ c → used (put t c v) n ≡ used t n
used-put_above t c v zero h = refl
used-put_above t c v (suc n) h = ground (arith, used-put_above t c v n)

used-put : (t : ℕ → ℕ) (c n : ℕ) → c < n → t c ≢ 0 → used (put t c 0) n + 1 ≡ used t n
used-put t c zero h e = absurd (omega arith)
used-put t c (suc n) h e = ground (arith, used-put t c n, used-put_above t c 0 n)

used-put_free : (t : ℕ → ℕ) (c n : ℕ) → t c ≡ 0 → used (put t c 0) n ≡ used t n
used-put_free t c zero e = refl
used-put_free t c (suc n) e = ground (arith, used-put_free t c n e)

-- What freeing from `c` makes of the table `t`.
pub record Freed (f : Fs) (t : ℕ → ℕ) (c : ℕ) (t' : ℕ → ℕ) : Type 0 where
  pub zero_or_same : (d : ℕ) → (t' d ≡ 0) ⊎ (t' d ≡ t d)
  pub first : InRange f c → t' c ≡ 0
  pub closed : (d : ℕ) → t' d ≡ 0 → t d ≢ 0 → InRange f (t d) → t' (t d) ≡ 0
  pub only : (d : ℕ) → t' d ≢ t d → Reaches f t c d

Reaches-InRange : {f : Fs} {t : ℕ → ℕ} {c d : ℕ} → Reaches f t c d → InRange f c
Reaches-InRange (here r) = r
Reaches-InRange (next r p) = r

-- What is reached once an entry is 0 was reached before.
Reaches-put : {f : Fs} {t : ℕ → ℕ} (c : ℕ) {a d : ℕ} → Reaches f (put t c 0) a d → Reaches f t a d
Reaches-put c (here r) = here r
Reaches-put c (next {c = a} r p) = elim (Bool-cases (c == a)) [
  | inl e ↦ ground (arith, Reaches-InRange p)
  | inr e ↦ next r (rw e at (Reaches-put c p))
]

module _ {f : Fs} {t : ℕ → ℕ} where
  Freed-none : {c : ℕ} → ¬ InRange f c → Freed f t c t
  Freed-none out = record {
    zero_or_same = λ d. inr refl;
    first = λ r. absurd (out r);
    closed = λ d e ne. absurd (ne e);
    only = λ d ne. absurd (ne refl);
  }

  Freed-next : {c : ℕ} {t' : ℕ → ℕ} → InRange f c → Freed f (put t c 0) (t c) t' → Freed f t c t'
  Freed-next {c} {t'} r k = record {
    zero_or_same = λ d. ground (arith, k.zero_or_same d);
    first = λ _. ground (arith, k.zero_or_same c);
    closed = λ d z ne rd. ground (arith, k.first, k.closed d);
    only = λ d ne. elim (Bool-cases (c == d)) [
      | inl e ↦ subst (λ x. Reaches f t c x) ((==_iff c d).0 e) (here r)
      | inr e ↦ next r (Reaches-put c (k.only d (rw e ne)))
    ];
  }

  Freed-along : {a c d : ℕ} {t' : ℕ → ℕ} → Freed f t c t' → t' a ≡ 0 → Reaches f t a d → t' d ≡ 0
  Freed-along k e (here r) = e
  Freed-along k e (next {c = a} r p) =
      let ra = Reaches-InRange p in Freed-along k (k.closed a e (λ z. omega arith) ra) p

  pub Freed-zero : {c d : ℕ} {t' : ℕ → ℕ} → Freed f t c t' → Reaches f t c d → t' d ≡ 0
  Freed-zero k p = Freed-along k (k.first (Reaches-InRange p)) p

  Freed-unreached : {c : ℕ} {t' : ℕ → ℕ} → Freed f t c t' → (d : ℕ) → ¬ Reaches f t c d → t' d ≡ t d
  Freed-unreached {c} {t'} k d out = elim (Bool-cases (t' d == t d)) [
    | inl e ↦ ground arith
    | inr e ↦ absurd (out (k.only d (λ same. ground arith)))
  ]

-- A cluster number is 0 at the end of a chain that was freed already.
abbrev more : ℕ → ℕ
more c = if c == 0 then 0 else 1

record Released (fuel c : ℕ) (s : State) (t : ℕ → ℕ) : Type 0 where
  after : State
  table : ℕ → ℕ
  ends : free_cluster_chain fuel c s ≡ some after
  freed : Freed s.fs t c table
  holds : Holds after table
  keeps : Keeps s after
  same_fs : after.fs ≡ s.fs

round_fuel :
    (t : ℕ → ℕ) (c n fuel : ℕ)
    → 2 ≤ c
    → c < n
    → used t n + more c < suc fuel
    → used (put t c 0) n + more (t c) < fuel
round_fuel t c n fuel lo hi enough = elim (Bool-cases (t c == 0)) [
  | inl e ↦ rw (used-put_free t c n (ground arith)) (ground arith)
  | inr e ↦ ground (arith, used-put t c n hi)
]

-- The test of the loop.
abbrev goes_on : Fs → ℕ → Bool
goes_on f c = leb 2 c && ltb c eoc_min && ltb c (u32 (f.total_clusters + 2))

goes_on-InRange : {f : Fs} (m : IsMounted f) (c : ℕ) → goes_on f c ≡ true → InRange f c
goes_on-InRange m c e = ground (arith, clusters-lt m)

stops-InRange : {f : Fs} (m : IsMounted f) (c : ℕ) → goes_on f c ≡ false → ¬ InRange f c
stops-InRange m c e r = ground (arith, clusters-lt m)

-- One round on a cluster of the volume.
release_round :
    (fuel c : ℕ) {s : State} {t : ℕ → ℕ}
    → Holds s t
    → goes_on s.fs c ≡ true
    → free_cluster_chain (suc fuel) c s
      ≡ free_cluster_chain fuel (t c) (write_fat c free_cluster (read_fat c s).1).1
unfolding free_cluster_chain
release_round fuel c h e = rw (e, (read_fat-lookup h c (goes_on-InRange h.mounted c e)).0)

release :
    (fuel c : ℕ) (s : State) (t : ℕ → ℕ)
    → Holds s t
    → used t (s.fs.total_clusters + 2) + more c < fuel
    → Released fuel c s t
release zero c s t h enough = absurd (omega arith)
release (suc fuel) c s t h enough = elim (Bool-cases (goes_on s.fs c)) [
  | inl e ↦
      let r = goes_on-InRange h.mounted c e in
      let (value, same, h', kept, _) = read_fat-lookup h c r in
      let (done, same2, h2, kept2) = write_fat-put h' c (rw same r) 0 in
      let rest =
        release fuel (t c) _ (put t c 0) h2
          (rw (same2, same) (round_fuel t c _ fuel r.0 r.1 enough)) in
      record {
        after = rest.after;
        table = rest.table;
        ends = rw (release_round fuel c h e) rest.ends;
        freed = Freed-next r (rw (same2, same) at rest.freed);
        holds = rest.holds;
        keeps = Keeps-trans kept (Keeps-trans kept2 rest.keeps);
        same_fs = rest.same_fs ∙ same2 ∙ same;
      }
  | inr e ↦ record {
    after = s;
    table = t;
    ends = unfold free_cluster_chain in rw e;
    freed = Freed-none (stops-InRange h.mounted c e);
    holds = h;
    keeps = Keeps-refl s;
    same_fs = refl;
  }
]

-- `fat32_free_cluster_chain` on a mounted volume whose disk does not fail ends, whatever the table
-- holds: `total_clusters + 4` rounds are enough. In every copy of the table then, each cluster that
-- the entries lead to from `c` is free, and every other entry is as it was; outside the table no
-- sector changes, and neither does `g_fs`.
pub free_cluster_chain_lem :
    (fuel c : ℕ) {s : State} {t : ℕ → ℕ}
    → Holds s t
    → s.fs.total_clusters + 3 < fuel
    → (s' : State) × (t' : ℕ → ℕ) × (free_cluster_chain fuel c s ≡ some s')
      × Holds s' t'
      × ((d : ℕ) → Reaches s.fs t c d → t' d ≡ 0)
      × ((d : ℕ) → ¬ Reaches s.fs t c d → t' d ≡ t d)
      × Keeps s s'
      × (s'.fs ≡ s.fs)
free_cluster_chain_lem fuel c {s} {t} h enough =
    let k = release fuel c s t h (ground (arith, used-le t (s.fs.total_clusters + 2))) in
    (
      k.after,
      k.table,
      k.ends,
      k.holds,
      (λ d p. Freed-zero k.freed p),
      (λ d out. Freed-unreached k.freed d out),
      k.keeps,
      k.same_fs,
    )
