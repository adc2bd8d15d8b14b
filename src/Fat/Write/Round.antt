-- ===== src/Fat/Write/Round.antt =====
-- One round of the loop of `fat32_write` of src/fs/fat32.c, on a cluster of the volume.
use quantum_kernel.Fat.Cluster.{write_cluster}
use quantum_kernel.Fat.Table.Entries.{clusters-lt}
use quantum_kernel.Fat.Cluster.RoundTrip.{read_cluster_lem, write_cluster_lem}
use quantum_kernel.Fat.File.Chain.{
  Quiet, read_cluster-Quiet, Quiet-refl, Quiet-Holds, Quiet-content,
}
use quantum_kernel.Fat.Table.{read_fat}
use quantum_kernel.Fat.Cluster.Laws.{content}
use quantum_kernel.Bytes.{Bytes, copy}
use quantum_kernel.Fat.Table.View.{Holds, InRange, read_fat-lookup}
use quantum_kernel.Prelude.{
  ltb, leb, if◌then◌else◌, Bool-cases, ℕ, ◌+◌, ◌-◌, ◌≤◌, ◌<◌, ◌≡◌, refl, ap, ◌∙◌, ◌≢◌, ◌⊎◌, inl,
  inr, true, false, ◌&&◌, ◌||◌, some, arith,
}
use quantum_kernel.Fat.{State, eoc_min}
use quantum_kernel.Fat.Write.{Writing, extend, prepare, to_copy, put_bytes}

-- The walk along the chain stays on it while there is a next cluster.
module _ {s : State} {t : ℕ → ℕ} (h : Holds s t) (c : ℕ) (r : InRange s.fs c)
    (next : InRange s.fs (t c)) where
  pub extend-next : extend c s ≡ (some (t c), (read_fat c s).1)
  unfolding extend
  extend-next =
      let on_chain : leb eoc_min (t c) ≡ false = ground (arith, clusters-lt h.mounted) in
      rw ((read_fat-lookup h c r).0, on_chain)

to_copy-eq : (w : Writing) (s s' : State) → s'.fs ≡ s.fs → to_copy w s' ≡ to_copy w s
unfolding to_copy
to_copy-eq w s s' same = rw same

-- What a round has done to the cluster, once it is written back.
pub record Stored (s : State) (t : ℕ → ℕ) (c from n start : ℕ) (buffer : Bytes) (s' : State)
    : Type 0 where
  pub same_fs : s'.fs ≡ s.fs
  pub same_dir : s'.current_dir_cluster ≡ s.current_dir_cluster
  pub holds : Holds s' t
  pub own :
      (k : ℕ)
      → k < s.fs.bytes_per_cluster
      → content s' c k
        ≡ (if leb from k && ltb k (from + n) then buffer (start + (k - from)) else content s c k)
  pub other :
      (d k : ℕ)
      → InRange s.fs d
      → d ≢ c
      → k < s.fs.bytes_per_cluster
      → content s' d k ≡ content s d k

module _ {s : State} {t : ℕ → ℕ} (h : Holds s t) (w : Writing) (r : InRange s.fs w.cluster) where
  -- A cluster that is written in part is in the buffer.
  prepare_lem :
      ((prepare w s).0 ≡ true)
      × Quiet s (prepare w s).1
      × ((k : ℕ)
          → k < s.fs.bytes_per_cluster
          → (k < w.offset_in_cluster) ⊎ (w.offset_in_cluster + to_copy w s ≤ k)
          → (prepare w s).1.cluster_buffer k ≡ content s w.cluster k)
  unfolding prepare to_copy
  prepare_lem =
      let (done, bytes, _) = read_cluster_lem h w.cluster r in
      elim (Bool-cases (ltb 0 w.offset_in_cluster || ltb w.size s.fs.bytes_per_cluster)) [
        | inl e ↦ rw e (done, read_cluster-Quiet h w.cluster r, λ k hk out. bytes k hk)
        | inr e ↦ rw e (refl, Quiet-refl s, λ k hk out. absurd (ground arith))
      ]

  -- The state the cluster is written back from, and the one behind that.
  abbrev pub filled : Bytes → State
  filled buffer = put_bytes buffer w (prepare w s).1

  filled-Quiet : (buffer : Bytes) → Quiet s (filled buffer)
  unfolding put_bytes
  filled-Quiet buffer =
      let q = prepare_lem.1 in
      record {
        same_fs = q.same_fs;
        same_dir = q.same_dir;
        same_sectors = q.same_sectors;
        same_faults = q.same_faults;
      }

  filled_lem :
      (buffer : Bytes) (k : ℕ)
      → k < s.fs.bytes_per_cluster
      → (filled buffer).cluster_buffer k ≡ (
          if leb w.offset_in_cluster k && ltb k (w.offset_in_cluster + to_copy w s)
          then buffer (w.bytes_written + (k - w.offset_in_cluster))
          else content s w.cluster k)
  unfolding put_bytes copy
  filled_lem buffer k hk =
      let same : to_copy w (prepare w s).1 ≡ to_copy w s = to_copy-eq w _ _ prepare_lem.1.same_fs in
      rw same (ground (arith, prepare_lem.2 k hk))

  -- A round prepares the cluster, fills it and writes it back.
  pub round_lem :
      (buffer : Bytes)
      → let (wrote, s') = write_cluster w.cluster (filled buffer) in
        ((prepare w s).0 ≡ true)
        × (wrote ≡ true)
        × Stored s t w.cluster w.offset_in_cluster (to_copy w s) w.bytes_written buffer s'
  round_lem buffer =
      let q = filled-Quiet buffer in
      let (wrote, same, holds, own, other) =
        write_cluster_lem (Quiet-Holds q h) w.cluster (rw q.same_fs r) in
      (
        prepare_lem.0,
        wrote,
        record {
          same_fs = ap (λ (u : State). u.fs) same ∙ q.same_fs;
          same_dir = ap (λ (u : State). u.current_dir_cluster) same ∙ q.same_dir;
          holds = holds;
          own = λ k hk. own k (rw q.same_fs hk) ∙ filled_lem buffer k hk;
          other = λ d k rd ne hk.
              other d k (rw q.same_fs rd) ne (rw q.same_fs hk) ∙ Quiet-content q d k;
        },
      )
