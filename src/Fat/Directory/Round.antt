-- ===== src/Fat/Directory/Round.antt =====
-- A round of the loop of `fat32_find_entry` of src/fs/fat32.c.
use quantum_kernel.Fat.Table.Entries.{clusters-lt}
use quantum_kernel.Fat.File.Reads.{stream_first}
use quantum_kernel.Fat.Directory.Flat.{scan_moved, shift_zero, shift, or_else, scan_found-lt}
use quantum_kernel.Fat.Cluster.RoundTrip.{read_cluster_lem}
use quantum_kernel.Fat.Table.View.{InRange, Holds}
use quantum_kernel.Fat.File.Chain.{Quiet, stream, Quiet-stream, read_cluster-Quiet}
use quantum_kernel.Prelude.{
  ltb, leb, u32, length, get_or, ℕ, suc, ◌+◌, ◌*◌, ◌/◌, ◌%◌, ◌<◌, ◌≡◌, refl, sym, ap, ◌∙◌, true,
  false, ◌&&◌, Option, none, some, List, ◌∷◌, arith,
}
use mathlib.Core.Path.{subst, fun_ext}
use quantum_kernel.Bytes.{from}
use quantum_kernel.Fat.{Fs, State, eoc_min}
use quantum_kernel.Fat.Cluster.{read_cluster}
use quantum_kernel.Fat.Table.{read_fat}
use quantum_kernel.Fat.Directory.{
  Scanned, at_end, found, passed, scan, Place, find_loop, dirent_size,
}
use quantum_kernel.Fat.Directory.Whole.{
  Reports, per_cluster, sectors, search_chain, IsAt, search_parts, Reports-behind,
}

-- What a search that ends comes to.
pub record Finds (fuel : ℕ) (name : List ℕ) (c : ℕ) (s : State) (cs : List ℕ) : Type 0 where
  pub place : Option Place
  pub state : State
  pub ends : find_loop fuel name c s ≡ some (place, state)
  pub quiet : Quiet s state
  pub reports : Reports s cs (search_chain s cs name) place

pub find_loop_out :
    (fuel : ℕ) (name : List ℕ) (c : ℕ) (s : State)
    → ¬ InRange s.fs c
    → find_loop (suc fuel) name c s ≡ some (none, s)
unfolding find_loop
find_loop_out fuel name c s out =
    let test : (leb 2 c && ltb c eoc_min && ltb c (u32 (s.fs.total_clusters + 2))) ≡ false =
      ground arith in
    rw test

pub Quiet-search_chain :
    {s s' : State} (cs name : List ℕ)
    → Quiet s s'
    → search_chain s' cs name ≡ search_chain s cs name
unfolding search_chain
Quiet-search_chain {s} {s'} cs name q =
    ap (λ (f : Fs). scan (length cs * (f.bytes_per_cluster / dirent_size)) 0 name (stream s' cs))
      q.same_fs
    ∙ ap (scan (length cs * per_cluster s) 0 name) (fun_ext (λ p. Quiet-stream q cs p))

pub Quiet-Reports :
    {s s' : State} (cs : List ℕ) (r : Scanned) (o : Option Place)
    → Quiet s s'
    → Reports s' cs r o
    → Reports s cs r o
unfolding Reports
Quiet-Reports cs at_end o q m = m
Quiet-Reports cs passed o q m = m
Quiet-Reports {s} cs (found i) o q (p, e, at) = (
  p,
  e,
  record {
    cluster =
        at.cluster
        ∙ ap (λ (f : Fs). get_or cs (i / (f.bytes_per_cluster / dirent_size)) 0) q.same_fs;
    offset =
        at.offset
        ∙ ap (λ (f : Fs). i % (f.bytes_per_cluster / dirent_size) * dirent_size) q.same_fs;
    entry = λ k hk. at.entry k hk ∙ Quiet-stream q cs (i * dirent_size + k);
  },
)

module _ {s : State} {t : ℕ → ℕ} (h : Holds s t) (c : ℕ) (r : InRange s.fs c) (name : List ℕ) where
  abbrev pub s1 : State
  s1 = (read_cluster c s).1

  pub s1-Quiet : Quiet s s1
  s1-Quiet = read_cluster-Quiet h c r

  -- The cluster's entries, as the loop reads them.
  first_scan :
      (cs : List ℕ)
      → length name ≡ 11
      → scan (per_cluster s1) 0 name s1.cluster_buffer
        ≡ scan (per_cluster s) 0 name (stream s (c ∷ cs))
  first_scan cs len =
      let (_, bytes, _) = read_cluster_lem h c r in
      let moved : scan (per_cluster s) (0 + 0) name s1.cluster_buffer
          ≡ shift 0 (scan (per_cluster s) 0 name (stream s (c ∷ cs))) =
        scan_moved (per_cluster s) 0 0 name s1.cluster_buffer (stream s (c ∷ cs)) len (λ k hk.
          ap s1.cluster_buffer (omega arith)
          ∙ bytes k (omega (arith, (sectors h).0))
          ∙ sym (stream_first s c cs k (omega (arith, (sectors h).0)))
          ∙ ap (stream s (c ∷ cs)) (omega arith)) in
      ap (λ (f : Fs). scan (f.bytes_per_cluster / dirent_size) 0 name s1.cluster_buffer)
        s1-Quiet.same_fs
      ∙ ap (λ j. scan (per_cluster s) j name s1.cluster_buffer) (omega arith)
      ∙ moved
      ∙ shift_zero (scan (per_cluster s) 0 name (stream s (c ∷ cs)))

  -- What the loop does once it has searched the cluster.
  unfoldable round : ℕ → Scanned → Option (Option Place × State)
  round fuel at_end = some (none, s1)
  round fuel (found i) = some (
    some (record {
      entry = from s1.cluster_buffer (i * dirent_size);
      cluster = c;
      offset = i * dirent_size;
    }),
    s1,
  )
  round fuel passed = find_loop fuel name (read_fat c s1).0 (read_fat c s1).1

  find_loop-round :
      (fuel : ℕ) (out : Scanned)
      → scan (per_cluster s1) 0 name s1.cluster_buffer ≡ out
      → find_loop (suc fuel) name c s ≡ round fuel out
  unfolding find_loop round
  find_loop-round fuel out e =
      let (done, _, _) = read_cluster_lem h c r in
      let test : (leb 2 c && ltb c eoc_min && ltb c (u32 (s.fs.total_clusters + 2))) ≡ true =
        ground (arith, clusters-lt h.mounted) in
      elim out
          as (λ (o : Scanned).
            scan (per_cluster s1) 0 name s1.cluster_buffer ≡ o
            → find_loop (suc fuel) name c s ≡ round fuel o) [
              | at_end ↦ λ e. rw (test, done, e)
              | found i ↦ λ e. rw (test, done, e)
              | passed ↦ λ e. rw (test, done, e)
            ]
        e

  -- The outcome of the chain's search, when the first cluster's is known.
  Reports-first :
      (cs : List ℕ) (out : Scanned) (o : Option Place)
      → length name ≡ 11
      → scan (per_cluster s1) 0 name s1.cluster_buffer ≡ out
      → Reports s (c ∷ cs) (or_else out (shift (per_cluster s) (search_chain s cs name))) o
      → Reports s (c ∷ cs) (search_chain s (c ∷ cs) name) o
  Reports-first cs out o len e m =
      let first : scan (per_cluster s) 0 name (stream s (c ∷ cs)) ≡ out =
        sym (first_scan cs len) ∙ e in
      let rest = shift (per_cluster s) (search_chain s cs name) in
      subst (λ x. Reports s (c ∷ cs) x o)
        (sym (search_parts h c cs name len ∙ ap (λ x. or_else x rest) first)) m

  first_place :
      (cs : List ℕ) (i : ℕ)
      → i < per_cluster s
      → IsAt s (c ∷ cs) i (record {
        entry = from s1.cluster_buffer (i * dirent_size);
        cluster = c;
        offset = i * dirent_size;
      })
  first_place cs i lt =
      let (_, bytes, _) = read_cluster_lem h c r in
      let q : i / per_cluster s ≡ 0 = grind arith in
      let m : i % per_cluster s ≡ i = grind arith in
      record {
        cluster = sym (ap (λ j. get_or (c ∷ cs) j 0) q);
        offset = sym (ap (λ j. j * dirent_size) m);
        entry = λ k hk.
            bytes (i * dirent_size + k) (omega (arith, (sectors h).0))
            ∙ sym (stream_first s c cs (i * dirent_size + k) (omega (arith, (sectors h).0)));
      }

  -- A round, with what the loop comes to behind it.
  pub Finds-round :
      (fuel : ℕ) (cs : List ℕ)
      → length name ≡ 11
      → (o : Option Place) (s' : State)
      → find_loop fuel name (read_fat c s1).0 (read_fat c s1).1 ≡ some (o, s')
      → Quiet s s'
      → Reports s cs (search_chain s cs name) o
      → Finds (suc fuel) name c s (c ∷ cs)
  unfolding round or_else Reports
  Finds-round fuel cs len o s' rest q m =
      let looked = scan (per_cluster s1) 0 name s1.cluster_buffer in
      elim looked as (λ (out : Scanned). looked ≡ out → Finds (suc fuel) name c s (c ∷ cs)) [
        | at_end ↦ λ e. record {
          place = none;
          state = s1;
          ends = find_loop-round fuel at_end e;
          quiet = s1-Quiet;
          reports = Reports-first cs at_end none len e refl;
        }
        | found i ↦ λ e.
            let lt : i < per_cluster s = omega (
              arith,
              scan_found-lt (per_cluster s1) 0 i name s1.cluster_buffer e,
              ap (λ (f : Fs). f.bytes_per_cluster / dirent_size) s1-Quiet.same_fs,
            ) in
            record {
              place = some (record {
                entry = from s1.cluster_buffer (i * dirent_size);
                cluster = c;
                offset = i * dirent_size;
              });
              state = s1;
              ends = find_loop-round fuel (found i) e;
              quiet = s1-Quiet;
              reports = Reports-first cs (found i) _ len e (_, refl, first_place cs i lt);
            }
        | passed ↦ λ e. record {
          place = o;
          state = s';
          ends = find_loop-round fuel passed e ∙ rest;
          quiet = q;
          reports =
              Reports-first cs passed o len e (Reports-behind h c cs (search_chain s cs name) o m);
        }
      ]
        refl
