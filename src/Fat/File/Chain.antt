-- ===== src/Fat/File/Chain.antt =====
-- The bytes of a chain of clusters of src/fs/fat32.c's volume, and walking along the chain.
use quantum_kernel.Fat.Cluster.RoundTrip.{read_cluster_lem}
use quantum_kernel.Fat.File.{skip_clusters}
use quantum_kernel.Fat.Cluster.{read_cluster}
use quantum_kernel.Fat.Table.{read_fat}
use quantum_kernel.Fat.Table.Entries.{entry}
use quantum_kernel.Fat.Cluster.Laws.{content}
use mathlib.Core.Path.{subst}
use quantum_kernel.Prelude.{
  length, get_or, drop, ℕ, zero, suc, ◌/◌, ◌%◌, ◌<◌, ◌≡◌, refl, sym, ap, ◌∙◌, List, [], ◌∷◌, arith,
  le→leb,
}
use quantum_kernel.Fat.{Fs, State}
use quantum_kernel.Fat.Table.View.{InRange, Holds, read_fat-loaded, read_fat-lookup}

-- From cluster `c` on the entries of `t` lead through the clusters listed.
pub data Links (f : Fs) (t : ℕ → ℕ) : ℕ → List ℕ → Type 0 where
  last : {c : ℕ} → InRange f c → Links f t c (c ∷ [])
  link : {c : ℕ} {cs : List ℕ} → InRange f c → Links f t (t c) cs → Links f t c (c ∷ cs)

pub Links-InRange : {f : Fs} {t : ℕ → ℕ} {c : ℕ} {cs : List ℕ} → Links f t c cs → InRange f c
Links-InRange (last r) = r
Links-InRange (link r l) = r

-- Byte `p` of the clusters, one behind the other.
unfoldable pub stream : State → List ℕ → ℕ → ℕ
stream s cs p = content s (get_or cs (p / s.fs.bytes_per_cluster) 0) (p % s.fs.bytes_per_cluster)

-- `s'` differs from `s` in the static buffers and the number of transfers made.
pub record Quiet (s s' : State) : Type 0 where
  pub same_fs : s'.fs ≡ s.fs
  pub same_dir : s'.current_dir_cluster ≡ s.current_dir_cluster
  pub same_sectors : s'.disk.sectors ≡ s.disk.sectors
  pub same_faults : s'.disk.faults ≡ s.disk.faults

pub Quiet-refl : (s : State) → Quiet s s
Quiet-refl s = record { same_fs = refl; same_dir = refl; same_sectors = refl; same_faults = refl }

pub Quiet-trans : {s t u : State} → Quiet s t → Quiet t u → Quiet s u
Quiet-trans a b = record {
  same_fs = b.same_fs ∙ a.same_fs;
  same_dir = b.same_dir ∙ a.same_dir;
  same_sectors = b.same_sectors ∙ a.same_sectors;
  same_faults = b.same_faults ∙ a.same_faults;
}

module _ {s s' : State} (q : Quiet s s') where
  pub Quiet-Holds : {t : ℕ → ℕ} → Holds s t → Holds s' t
  unfolding entry
  Quiet-Holds h = record {
    mounted = rw q.same_fs h.mounted;
    reliable = λ n. rw q.same_faults (h.reliable n);
    table = rw (q.same_fs, q.same_sectors) h.table;
  }

  pub Quiet-content : (c k : ℕ) → content s' c k ≡ content s c k
  unfolding content
  Quiet-content c k = rw (q.same_fs, q.same_sectors)

  pub Quiet-stream : (cs : List ℕ) (p : ℕ) → stream s' cs p ≡ stream s cs p
  unfolding stream
  Quiet-stream cs p =
      Quiet-content _ _
      ∙ ap (λ (f : Fs). content s (get_or cs (p / f.bytes_per_cluster) 0) (p % f.bytes_per_cluster))
          q.same_fs

  pub Quiet-Links : {t : ℕ → ℕ} {c : ℕ} {cs : List ℕ} → Links s.fs t c cs → Links s'.fs t c cs
  Quiet-Links {t} {c} {cs} l = subst (λ f. Links f t c cs) (sym q.same_fs) l

module _ {s : State} {t : ℕ → ℕ} (h : Holds s t) (c : ℕ) (r : InRange s.fs c) where
  pub read_fat-Quiet : Quiet s (read_fat c s).1
  read_fat-Quiet =
      rw (read_fat-loaded h c r)
        (record { same_fs = refl; same_dir = refl; same_sectors = refl; same_faults = refl })

  pub read_cluster-Quiet : Quiet s (read_cluster c s).1
  read_cluster-Quiet =
      let (_, _, same) = read_cluster_lem h c r in
      record {
        same_fs = ap (λ (u : State). u.fs) same;
        same_dir = ap (λ (u : State). u.current_dir_cluster) same;
        same_sectors = ap (λ (u : State). u.disk.sectors) same;
        same_faults = ap (λ (u : State). u.disk.faults) same;
      }

-- The walk over `n` clusters ends at the chain's cluster `n`.
pub skip_clusters_lem :
    (n : ℕ) {c : ℕ} {cs : List ℕ} {s : State} {t : ℕ → ℕ}
    → Holds s t
    → Links s.fs t c cs
    → n < length cs
    → ((skip_clusters n c s).0 ≡ get_or cs n 0)
      × Links s.fs t (get_or cs n 0) (drop n cs)
      × Quiet s (skip_clusters n c s).1
unfolding skip_clusters
skip_clusters_lem zero h (last r) lt = (refl, last r, Quiet-refl _)
skip_clusters_lem zero h (link r l) lt = (refl, link r l, Quiet-refl _)
skip_clusters_lem (suc n) h (last r) lt = absurd (omega arith)
skip_clusters_lem (suc n) {c} {s} {t} h (link {cs} r l) lt =
    let q = read_fat-Quiet h c r in
    let (found, links, q') =
      skip_clusters_lem n {c = t c} {cs = cs} (Quiet-Holds q h) (Quiet-Links q l) (omega arith) in
    rw ((read_fat-lookup h c r).0, le→leb 2 c r.0)
      (found, subst (λ f. Links f t (get_or cs n 0) (drop n cs)) q.same_fs links, Quiet-trans q q')
