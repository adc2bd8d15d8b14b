-- ===== src/Fat/Directory/Whole.antt =====
-- `fat32_find_entry` of src/fs/fat32.c over the whole chain of a directory: it is one search of the
-- entries of the chain's clusters, one behind the other.
use quantum_kernel.Fat.Directory.Flat.{shift, or_else, scan_moved, scan_parts}
use quantum_kernel.Fat.File.Reads.{stream_rest}
use quantum_kernel.Fat.File.Chain.{stream}
use quantum_kernel.Fat.Table.View.{InRange, Holds}
use quantum_kernel.Prelude.{
  length, get_or, ℕ, suc, ◌+◌, ◌*◌, ◌/◌, ◌%◌, ◌<◌, ◌≡◌, sym, ap, ◌∙◌, Option, none, some, List, [],
  ◌∷◌, arith,
}
use quantum_kernel.Fat.{Fs, State}
use quantum_kernel.Fat.Directory.{Scanned, at_end, found, passed, scan, Place, dirent_size}

-- From cluster `c` on the entries of `t` lead through the clusters listed, and then out of the
-- volume.
pub data Whole (f : Fs) (t : ℕ → ℕ) : ℕ → List ℕ → Type 0 where
  outward : {c : ℕ} → InRange f c → ¬ InRange f (t c) → Whole f t c (c ∷ [])
  onward : {c : ℕ} {cs : List ℕ} → InRange f c → Whole f t (t c) cs → Whole f t c (c ∷ cs)

abbrev pub per_cluster : State → ℕ
per_cluster s = s.fs.bytes_per_cluster / dirent_size

-- The place of entry `i` of the chain.
pub record IsAt (s : State) (cs : List ℕ) (i : ℕ) (p : Place) : Type 0 where
  pub cluster : p.cluster ≡ get_or cs (i / per_cluster s) 0
  pub offset : p.offset ≡ i % per_cluster s * dirent_size
  pub entry : (k : ℕ) → k < dirent_size → p.entry k ≡ stream s cs (i * dirent_size + k)

-- What a search of the chain's entries comes to, as `fat32_find_entry` reports it.
unfoldable pub Reports : State → List ℕ → Scanned → Option Place → Type 0
Reports s cs at_end o = o ≡ none
Reports s cs passed o = o ≡ none
Reports s cs (found i) o = (p : Place) × (o ≡ some p) × IsAt s cs i p

-- All entries of the chain, searched in one go.
unfoldable pub search_chain : State → List ℕ → List ℕ → Scanned
search_chain s cs name = scan (length cs * per_cluster s) 0 name (stream s cs)

module _ {s : State} {t : ℕ → ℕ} (h : Holds s t) where
  pub sectors : (s.fs.bytes_per_cluster ≡ per_cluster s * dirent_size) × (0 < per_cluster s)
  sectors = omega (arith, h.mounted.cluster_bytes, h.mounted.has_sector)

  pub bytes-pos : 0 < s.fs.bytes_per_cluster
  bytes-pos = omega (arith, h.mounted.cluster_bytes, h.mounted.has_sector)

  -- A place behind a first cluster.
  IsAt-behind :
      (c : ℕ) (cs : List ℕ) (i : ℕ) (p : Place)
      → IsAt s cs i p
      → IsAt s (c ∷ cs) (per_cluster s + i) p
  IsAt-behind c cs i p at =
      let n = per_cluster s in
      let q : (n + i) / n ≡ suc (i / n) = grind (arith, sectors.1) in
      let r : (n + i) % n ≡ i % n = grind (arith, sectors.1) in
      record {
        cluster = at.cluster ∙ rw q;
        offset = at.offset ∙ ap (λ j. j * dirent_size) (sym r);
        entry = λ k hk.
            at.entry k hk
            ∙ sym (stream_rest s c cs (i * dirent_size + k) bytes-pos)
            ∙ ap (stream s (c ∷ cs)) (omega (arith, sectors.0));
      }

  pub Reports-behind :
      (c : ℕ) (cs : List ℕ) (r : Scanned) (o : Option Place)
      → Reports s cs r o
      → Reports s (c ∷ cs) (shift (per_cluster s) r) o
  unfolding Reports shift
  Reports-behind c cs at_end o m = m
  Reports-behind c cs passed o m = m
  Reports-behind c cs (found i) o (p, e, at) = (p, e, IsAt-behind c cs i p at)

  -- The search of the first cluster, and then that of the rest.
  pub search_parts :
      (c : ℕ) (cs name : List ℕ)
      → length name ≡ 11
      → search_chain s (c ∷ cs) name
        ≡ or_else
            (scan (per_cluster s) 0 name (stream s (c ∷ cs)))
            (shift (per_cluster s) (search_chain s cs name))
  unfolding search_chain
  search_parts c cs name len =
      let n = per_cluster s in
      let count : length (c ∷ cs) * n ≡ n + length cs * n = omega arith in
      let moved : scan (length cs * n) (n + 0) name (stream s (c ∷ cs))
          ≡ shift n (scan (length cs * n) 0 name (stream s cs)) =
        scan_moved (length cs * n) 0 n name (stream s (c ∷ cs)) (stream s cs) len (λ k hk.
          ap (stream s (c ∷ cs)) (omega (arith, sectors.0))
          ∙ stream_rest s c cs k bytes-pos
          ∙ ap (stream s cs) (omega arith)) in
      ap (λ m. scan m 0 name (stream s (c ∷ cs))) count
      ∙ scan_parts n (length cs * n) 0 name (stream s (c ∷ cs))
      ∙ ap (or_else (scan n 0 name (stream s (c ∷ cs))))
          (ap (λ j. scan (length cs * n) j name (stream s (c ∷ cs))) (omega arith) ∙ moved)
