-- ===== src/Fat/Write/Apart.antt =====
-- Chains of src/fs/fat32.c that meet no cluster twice, and what a write elsewhere leaves of them.
use quantum_kernel.Fat.File.Reads.{stream_first, stream_rest}
use quantum_kernel.Bytes.{Bytes}
use quantum_kernel.Fat.Table.View.{InRange}
use quantum_kernel.Fat.Cluster.Laws.{content}
use quantum_kernel.Fat.File.Chain.{Links, stream, last, link}
use quantum_kernel.Prelude.{
  length-drop, get_or-drop, ltb, leb, if◌then◌else◌, Bool-cases, length, get_or, drop, ℕ, zero, suc,
  ◌+◌, ◌-◌, ◌*◌, ◌/◌, ◌%◌, ◌≤◌, ◌<◌, ◌≡◌, ap, ◌∙◌, ◌≢◌, ◌⊎◌, inl, inr, ◌&&◌, List, [], ◌∷◌, arith,
}
use native.Mathlib.Nat.{div-lt_iff_lt-mul, mod-lt}
use quantum_kernel.Fat.{Fs, State}

-- The cluster is none of those listed.
abbrev pub NotIn : ℕ → List ℕ → Type 0
NotIn c cs = (i : ℕ) → i < length cs → get_or cs i 0 ≢ c

-- The clusters listed are pairwise different.
pub data Distinct : List ℕ → Type 0 where
  empty : Distinct []
  and : {c : ℕ} {cs : List ℕ} → NotIn c cs → Distinct cs → Distinct (c ∷ cs)

pub Distinct-head : {c : ℕ} {cs : List ℕ} → Distinct (c ∷ cs) → NotIn c cs
Distinct-head (and n d) = n

pub Distinct-tail : {c : ℕ} {cs : List ℕ} → Distinct (c ∷ cs) → Distinct cs
Distinct-tail (and n d) = d

pub NotIn-tail : (d c : ℕ) (cs : List ℕ) → NotIn d (c ∷ cs) → NotIn d cs
NotIn-tail d c cs away i h = away (suc i) (omega arith)

pub Distinct-drop : (n : ℕ) {cs : List ℕ} → Distinct cs → Distinct (drop n cs)
Distinct-drop zero d = d
Distinct-drop (suc n) empty = empty
Distinct-drop (suc n) (and away d) = Distinct-drop n d

-- A cluster before the first `n` dropped is not among the rest.
pub Distinct-before :
    (n i : ℕ) {cs : List ℕ}
    → Distinct cs
    → i < n
    → i < length cs
    → NotIn (get_or cs i 0) (drop n cs)
Distinct-before zero i d lt in_list = absurd (omega arith)
Distinct-before (suc n) zero empty lt in_list = absurd (omega arith)
Distinct-before (suc n) (suc i) empty lt in_list = absurd (omega arith)
Distinct-before (suc n) zero (and {cs} away d) lt in_list =
    λ j hj. rw (get_or-drop n j cs 0) (away (n + j) (ground (arith, length-drop n cs)))
Distinct-before (suc n) (suc i) (and away d) lt in_list =
    Distinct-before n i d (omega arith) (omega arith)

pub NotIn-drop : (n : ℕ) (cs : List ℕ) (d : ℕ) → NotIn d cs → NotIn d (drop n cs)
NotIn-drop n cs d away j hj =
    rw (get_or-drop n j cs 0) (away (n + j) (ground (arith, length-drop n cs)))

pub Links-at :
    {f : Fs} {t : ℕ → ℕ} {c : ℕ} {cs : List ℕ} (i : ℕ)
    → Links f t c cs
    → i < length cs
    → InRange f (get_or cs i 0)
Links-at zero (last r) h = r
Links-at (suc i) (last r) h = absurd (omega arith)
Links-at zero (link r l) h = r
Links-at (suc i) (link r l) h = Links-at i l (omega arith)

-- A cluster on which two states agree.
abbrev pub Agree : State → State → ℕ → Type 0
Agree s s' d = (k : ℕ) → k < s.fs.bytes_per_cluster → content s' d k ≡ content s d k

-- A byte of the chain whose cluster the states agree on.
pub Agree-stream :
    (s s' : State) (cs : List ℕ) (p : ℕ)
    → s'.fs ≡ s.fs
    → 0 < s.fs.bytes_per_cluster
    → Agree s s' (get_or cs (p / s.fs.bytes_per_cluster) 0)
    → stream s' cs p ≡ stream s cs p
unfolding stream
Agree-stream s s' cs p same h agree =
    ap (λ (f : Fs). content s' (get_or cs (p / f.bytes_per_cluster) 0) (p % f.bytes_per_cluster))
      same
    ∙ agree (p % s.fs.bytes_per_cluster) (mod-lt _ h)

-- A chain none of whose clusters has been written keeps its bytes.
pub stream-other :
    (s s' : State) (cs : List ℕ) (p : ℕ)
    → s'.fs ≡ s.fs
    → 0 < s.fs.bytes_per_cluster
    → ((i : ℕ) → i < length cs → Agree s s' (get_or cs i 0))
    → p < length cs * s.fs.bytes_per_cluster
    → stream s' cs p ≡ stream s cs p
stream-other s s' cs p same h agree lt =
    Agree-stream s s' cs p same h (agree _ ((div-lt_iff_lt-mul h).1 lt))

pub stream-beyond :
    (s : State) (c : ℕ) (cs : List ℕ) (k : ℕ)
    → 0 < s.fs.bytes_per_cluster
    → s.fs.bytes_per_cluster ≤ k
    → stream s (c ∷ cs) k ≡ stream s cs (k - s.fs.bytes_per_cluster)
stream-beyond s c cs k pos_b behind =
    let at : k ≡ s.fs.bytes_per_cluster + (k - s.fs.bytes_per_cluster) = omega arith in
    ap (stream s (c ∷ cs)) at ∙ stream_rest s c cs (k - s.fs.bytes_per_cluster) pos_b

-- What stands in a chain behind a first cluster and the rest that have been written.
pub stream-written :
    (s u : State) (c : ℕ) (cs : List ℕ) (buffer : Bytes) (offset n m start : ℕ)
    → u.fs ≡ s.fs
    → 0 < s.fs.bytes_per_cluster
    → ((k : ℕ)
        → k < s.fs.bytes_per_cluster
        → content u c k ≡ (
            if leb offset k && ltb k (offset + n)
            then buffer (start + (k - offset))
            else content s c k))
    → ((k : ℕ)
        → k < length cs * s.fs.bytes_per_cluster
        → stream u cs k ≡ (if ltb k m then buffer (start + n + k) else stream s cs k))
    → (m ≡ 0) ⊎ (offset + n ≡ s.fs.bytes_per_cluster)
    → offset + n ≤ s.fs.bytes_per_cluster
    → (k : ℕ) → k < length (c ∷ cs) * s.fs.bytes_per_cluster
    → stream u (c ∷ cs) k ≡ (
        if leb offset k && ltb k (offset + (n + m))
        then buffer (start + (k - offset))
        else stream s (c ∷ cs) k)
stream-written s u c cs buffer offset n m start same pos_b first rest full fits k lt =
    elim (Bool-cases (ltb k s.fs.bytes_per_cluster)) [
      | inl e ↦
          stream_first u c cs k (rw same (ground arith))
          ∙ ground (arith, first k (ground arith), stream_first s c cs k (ground arith), full)
      | inr e ↦
          stream-beyond u c cs k (rw same pos_b) (rw same (ground arith))
          ∙ ap (λ (f : Fs). stream u cs (k - f.bytes_per_cluster)) same
          ∙ ground (
            arith,
            rest (k - s.fs.bytes_per_cluster),
            stream-beyond s c cs k pos_b (ground arith),
            full,
          )
    ]
