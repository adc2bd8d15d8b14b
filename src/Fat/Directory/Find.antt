-- ===== src/Fat/Directory/Find.antt =====
-- `fat32_find_entry` of src/fs/fat32.c, along a whole chain.
use quantum_kernel.Fat.Directory.Flat.{to_short_name_length}
use quantum_kernel.Fat.Directory.Round.{
  Finds, s1-Quiet, Finds-round, find_loop_out, Quiet-search_chain, Quiet-Reports,
}
use quantum_kernel.Fat.Table.View.{Holds, InRange, read_fat-lookup}
use quantum_kernel.Fat.File.Chain.{stream, Quiet, Quiet-trans, read_fat-Quiet, Quiet-Holds}
use quantum_kernel.Prelude.{
  length, ℕ, zero, suc, ◌*◌, ◌<◌, ◌≡◌, refl, sym, ap, ◌∙◌, Option, none, some, List, [], arith,
}
use mathlib.Core.Path.{subst}
use quantum_kernel.Fat.{State}
use quantum_kernel.Fat.Cluster.{read_cluster}
use quantum_kernel.Fat.Table.{read_fat}
use quantum_kernel.Fat.Name.{to_short_name}
use quantum_kernel.Fat.Directory.{passed, scan, Place, find_loop, find_entry}
use quantum_kernel.Fat.Directory.Whole.{Reports, per_cluster, search_chain, Whole, outward, onward}

search_chain_none : (s : State) (name : List ℕ) → search_chain s [] name ≡ passed
unfolding search_chain scan
search_chain_none s name =
    let e : length {A = ℕ} [] * per_cluster s ≡ 0 = omega arith in
    ap (λ n. scan n 0 name (stream s [])) e

find_loop_lem :
    (fuel : ℕ) (name : List ℕ) {c : ℕ} {cs : List ℕ} {s : State} {t : ℕ → ℕ}
    → length name ≡ 11
    → Holds s t
    → Whole s.fs t c cs
    → length cs < fuel
    → Finds fuel name c s cs
unfolding Reports
find_loop_lem zero name len h whole enough = absurd (omega arith)
find_loop_lem (suc zero) name len h (outward r out) enough = absurd (omega arith)
find_loop_lem (suc (suc fuel)) name {c} {s} len h (outward r out) enough =
    let q = s1-Quiet h c r name in
    let s1 = (read_cluster c s).1 in
    let r1 : InRange s1.fs c = rw q.same_fs r in
    let q2 = Quiet-trans q (read_fat-Quiet (Quiet-Holds q h) c r1) in
    let s2 = (read_fat c s1).1 in
    let out' : ¬ InRange s2.fs (read_fat c s1).0 =
      rw ((read_fat-lookup (Quiet-Holds q h) c r1).0, q2.same_fs) out in
    Finds-round h c r name (suc fuel) [] len none s2 (find_loop_out fuel name _ s2 out') q2
      (subst (λ x. Reports s [] x none) (sym (search_chain_none s name)) refl)
find_loop_lem (suc fuel) name {c} {s} {t} len h (onward {cs} r whole) enough =
    let q = s1-Quiet h c r name in
    let s1 = (read_cluster c s).1 in
    let r1 : InRange s1.fs c = rw q.same_fs r in
    let q2 = Quiet-trans q (read_fat-Quiet (Quiet-Holds q h) c r1) in
    let s2 = (read_fat c s1).1 in
    let next : (read_fat c s1).0 ≡ t c = (read_fat-lookup (Quiet-Holds q h) c r1).0 in
    let rest =
      find_loop_lem fuel name {c = t c} {cs = cs} {s = s2} {t = t} len (Quiet-Holds q2 h)
        (subst (λ f. Whole f t (t c) cs) (sym q2.same_fs) whole) (omega arith) in
    Finds-round h c r name fuel cs len rest.place rest.state
      (ap (λ n. find_loop fuel name n s2) next ∙ rest.ends) (Quiet-trans q2 rest.quiet)
      (subst (λ x. Reports s cs x rest.place) (Quiet-search_chain cs name q2)
        (Quiet-Reports cs (search_chain s2 cs name) rest.place q2 rest.reports))

-- `fat32_find_entry` on a mounted volume whose disk does not fail, for a directory whose chain leads
-- through the clusters listed and then out of the volume: it ends, with fuel above their number, and
-- comes to what one search of all their entries, one cluster behind the other, comes to. An entry
-- that is found is reported with its bytes, its cluster and its offset; nothing is written.
pub find_entry_lem :
    (fuel dir_cluster : ℕ) (name : List ℕ) (s : State) (t : ℕ → ℕ) (cs : List ℕ)
    → Holds s t
    → Whole s.fs t dir_cluster cs
    → length cs < fuel
    → (o : Option Place) × (s' : State) × (find_entry fuel dir_cluster name s ≡ some (o, s'))
      × Reports s cs (search_chain s cs (to_short_name name)) o
      × Quiet s s'
unfolding find_entry
find_entry_lem fuel dir_cluster name s t cs h whole enough =
    let f = find_loop_lem fuel (to_short_name name) (to_short_name_length name) h whole enough in
    (f.place, f.state, f.ends, f.reports, f.quiet)
