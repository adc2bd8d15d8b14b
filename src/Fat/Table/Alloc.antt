-- ===== src/Fat/Table/Alloc.antt =====
-- `fat32_alloc_cluster` of src/fs/fat32.c: what it takes, and that it looks everywhere.
use quantum_kernel.Fat.Table.Entries.{entry, clusters-lt}
use quantum_kernel.Prelude.{
  ℕ, zero, suc, ◌≡◌, if◌then◌else◌, ◌≤◌, ◌≢◌, leb, ◌<◌, u32, ◌+◌, ◌-◌, arith, ◌⊎◌, inl, refl, ◌∙◌,
  Bool-cases, ◌==◌, inr,
}
use quantum_kernel.Fat.{Fs, State, eoc_max, IsMounted}
use quantum_kernel.Fat.Table.{
  alloc_loop, alloc_cluster, read_fat, write_fat, set_next_free, wrap_cluster,
}
use quantum_kernel.Fat.Table.View.{
  Holds, Keeps, InRange, put, Keeps-refl, write_fat-put, Keeps-trans, read_fat-lookup,
}

-- `c` was free, is now the end of a chain, and the search goes on behind it.
pub record Took (s : State) (t : ℕ → ℕ) (c : ℕ) (s' : State) : Type 0 where
  pub in_volume : InRange s.fs c
  pub was_free : t c ≡ 0
  pub holds : Holds s' (put t c eoc_max)
  pub keeps : Keeps s s'
  pub next : s'.fs.fsinfo.next_free ≡ c + 1

-- Nothing was taken, and the clusters that `seen` names are in use.
pub record TookNone (s : State) (t : ℕ → ℕ) (seen : ℕ → Type 0) (c : ℕ) (s' : State) : Type 0 where
  pub zero : c ≡ 0
  pub in_use : (d : ℕ) → InRange s.fs d → seen d → t d ≢ 0
  pub holds : Holds s' t
  pub keeps : Keeps s s'
  pub same_fs : s'.fs ≡ s.fs

-- The rounds until the search from `c` reaches `d`.
distance : Fs → ℕ → ℕ → ℕ
distance f c d = if leb c d then d - c else d + f.total_clusters - c

distance-lt : (f : Fs) (c d : ℕ) → InRange f c → InRange f d → distance f c d < f.total_clusters
unfolding distance
distance-lt f c d rc rd = ground arith

set_next_free-IsMounted : (c : ℕ) (s : State) → IsMounted s.fs → IsMounted (set_next_free c s).fs
set_next_free-IsMounted c s m = record {
  has_fat = m.has_fat;
  few_fats = m.few_fats;
  copies_fit = m.copies_fit;
  table_fits = m.table_fits;
  has_sector = m.has_sector;
  buffer_fits = m.buffer_fits;
  cluster_bytes = m.cluster_bytes;
  data_fits = m.data_fits;
}

set_next_free-Holds : (c : ℕ) (s : State) (t : ℕ → ℕ) → Holds s t → Holds (set_next_free c s) t
unfolding entry
set_next_free-Holds c s t h = record {
  mounted = set_next_free-IsMounted c s h.mounted;
  reliable = h.reliable;
  table = h.table;
}

set_next_free-Keeps : (c : ℕ) (s : State) → Keeps s (set_next_free c s)
set_next_free-Keeps c s = record {
  same_fs = refl;
  same_dir = refl;
  same_buffer = refl;
  outside = λ lba out. refl;
}

module _ {s : State} {t : ℕ → ℕ} (h : Holds s t) where
  wrap_cluster-InRange :
      (c : ℕ) → 2 ≤ c → 0 < s.fs.total_clusters → InRange s.fs (wrap_cluster s.fs c)
  unfolding wrap_cluster
  wrap_cluster-InRange c lo some_cluster = ground (arith, clusters-lt h.mounted)

  next-eq : (c : ℕ) → InRange s.fs c → u32 (c + 1) ≡ c + 1
  next-eq c r = omega (arith, clusters-lt h.mounted)

  take_free :
      (c : ℕ)
      → InRange s.fs c
      → t c ≡ 0
      → Took s t c (set_next_free (u32 (c + 1)) (write_fat c eoc_max s).1)
  take_free c r e =
      let (done, same, put_c, kept) = write_fat-put h c r eoc_max in
      record {
        in_volume = r;
        was_free = e;
        holds = set_next_free-Holds _ _ _ put_c;
        keeps = Keeps-trans kept (set_next_free-Keeps _ _);
        next = next-eq c r;
      }

module _ {s s' : State} {t : ℕ → ℕ} (same : s'.fs ≡ s.fs) (kept : Keeps s s') where
  Took-earlier : {c : ℕ} {u : State} → Took s' t c u → Took s t c u
  Took-earlier k = record {
    in_volume = rw same at k.in_volume;
    was_free = k.was_free;
    holds = k.holds;
    keeps = Keeps-trans kept k.keeps;
    next = k.next;
  }

  -- A used cluster, and a search from the one behind it that finds nothing.
  TookNone-earlier :
      (n c : ℕ) {d : ℕ} {u : State}
      → IsMounted s.fs
      → InRange s.fs c
      → t c ≢ 0
      → TookNone s' t (λ e. distance s'.fs (wrap_cluster s'.fs (c + 1)) e < n) d u
      → TookNone s t (λ e. distance s.fs c e < suc n) d u
  unfolding distance wrap_cluster
  TookNone-earlier n c m r used k = record {
    zero = k.zero;
    in_use = λ d rd near. ground (arith, k.in_use d, same, clusters-lt m);
    holds = k.holds;
    keeps = Keeps-trans kept k.keeps;
    same_fs = k.same_fs ∙ same;
  }

module _ {s : State} {t : ℕ → ℕ} (h : Holds s t) (n c : ℕ)
    (r : InRange s.fs (wrap_cluster s.fs c)) where
  alloc_loop_free :
      t (wrap_cluster s.fs c) ≡ 0
      → alloc_loop (suc n) c s ≡ (
        wrap_cluster s.fs c,
        set_next_free
            (u32 (wrap_cluster s.fs c + 1))
            (write_fat (wrap_cluster s.fs c) eoc_max (read_fat (wrap_cluster s.fs c) s).1).1,
      )
  unfolding alloc_loop
  alloc_loop_free e = rw ((read_fat-lookup h _ r).0, e)

  alloc_loop_used :
      t (wrap_cluster s.fs c) ≢ 0
      → alloc_loop (suc n) c s
        ≡ alloc_loop n (wrap_cluster s.fs c + 1) (read_fat (wrap_cluster s.fs c) s).1
  unfolding alloc_loop
  alloc_loop_used e = ground (arith, read_fat-lookup h _ r, next-eq h _ r)

-- The loop, from cluster `c` on with `n` rounds, on a volume whose table is `t`.
alloc_loop_lem :
    (n c : ℕ) {s : State} {t : ℕ → ℕ}
    → Holds s t
    → 2 ≤ c
    → n ≤ s.fs.total_clusters
    → let (d, s') = alloc_loop n c s in
      TookNone s t (λ e. distance s.fs (wrap_cluster s.fs c) e < n) d s' ⊎ Took s t d s'
unfolding alloc_loop
alloc_loop_lem zero c {s} h lo hn = inl (record {
  zero = refl;
  in_use = λ d r k. absurd (omega arith);
  holds = h;
  keeps = Keeps-refl s;
  same_fs = refl;
})
alloc_loop_lem (suc n) c {s} {t} h lo hn =
    let r = wrap_cluster-InRange h c lo (omega arith) in
    let (value, same, h', kept, _) = read_fat-lookup h (wrap_cluster s.fs c) r in
    elim (Bool-cases (t (wrap_cluster s.fs c) == 0)) [
      | inl e ↦
          rw (alloc_loop_free h n c r (ground arith))
            (inr (Took-earlier same kept (take_free h' _ (rw same r) (ground arith))))
      | inr e ↦
          rw (alloc_loop_used h n c r (ground arith))
            (elim (alloc_loop_lem n (wrap_cluster s.fs c + 1) h' (omega arith)
              (rw same (omega arith))) [
                | inl k ↦ inl (TookNone-earlier same kept n _ h.mounted r (ground arith) k)
                | inr k ↦ inr (Took-earlier same kept k)
              ])
    ]

-- `fat32_alloc_cluster` on a mounted volume whose disk does not fail: either it returns 0, and no
-- cluster is free and the table is as it was; or it returns a cluster that was free, whose entry is
-- now the end-of-chain mark in every copy of the table while all other entries are as they were, and
-- the next search starts behind it. Outside the table no sector changes.
pub alloc_cluster_lem :
    {s : State} {t : ℕ → ℕ}
    → Holds s t
    → let (c, s') = alloc_cluster s in
      ((c ≡ 0) × ((d : ℕ) → InRange s.fs d → t d ≢ 0) × Holds s' t × Keeps s s') ⊎ Took s t c s'
unfolding alloc_cluster
alloc_cluster_lem {s} {t} h =
    elim (alloc_loop_lem s.fs.total_clusters _ h (ground arith) (omega arith)) [
      | inl k ↦ inl (
        k.zero,
        (λ d r.
            k.in_use d r
              (distance-lt s.fs _ d (wrap_cluster-InRange h _ (ground arith) (omega arith)) r)),
        k.holds,
        k.keeps,
      )
      | inr k ↦ inr k
    ]
