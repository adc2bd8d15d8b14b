-- ===== src/Fat/Chdir/Located.antt =====
-- Directories below one another on the volume of src/fs/fat32.c, by the names that lead to them.
use quantum_kernel.Fat.Directory.Round.{Quiet-search_chain}
use quantum_kernel.Fat.Table.View.{Holds}
use quantum_kernel.Fat.File.Chain.{stream, Quiet, Quiet-Holds, Quiet-trans, Quiet-stream}
use quantum_kernel.Prelude.{
  bit, ◌+◌, true, length, take, ℕ, zero, suc, ◌*◌, ◌<◌, ◌≡◌, refl, sym, ap, ◌∙◌, some, List, [],
  ◌∷◌, ◌++◌, arith,
}
use mathlib.Core.Path.{subst, fun_ext}
use quantum_kernel.Bytes.{from, read16}
use quantum_kernel.Fat.{State}
use quantum_kernel.Fat.Chdir.{follow}
use quantum_kernel.Fat.Directory.{Place, found, dirent_size, first_cluster_of}
use quantum_kernel.Fat.Directory.Whole.{Reports, search_chain, Whole, IsAt}
use quantum_kernel.Fat.Directory.Find.{find_entry_lem}
use quantum_kernel.Fat.Name.{to_short_name}

-- The first cluster in entry `i` of a directory's chain.
abbrev pub entry_cluster : State → List ℕ → ℕ → ℕ
entry_cluster s cs i = first_cluster_of (from (stream s cs) (i * dirent_size))

-- From the directory at `c` the names lead to the one at `d`: each is found by a search of the chain
-- of the directory before, whose clusters are fewer than `fuel`, in an entry with ATTR_DIRECTORY.
pub data Leads (s : State) (t : ℕ → ℕ) (fuel : ℕ) : ℕ → List (List ℕ) → ℕ → Type 0 where
  here : {c : ℕ} → Leads s t fuel c [] c
  into :
      {c d : ℕ} {name : List ℕ} {names : List (List ℕ)} (cs : List ℕ) (i : ℕ)
      → Whole s.fs t c cs
      → length cs < fuel
      → search_chain s cs (to_short_name name) ≡ found i
      → bit (stream s cs (i * dirent_size + 11)) 4 ≡ true
      → Leads s t fuel (entry_cluster s cs i) names d
      → Leads s t fuel c (name ∷ names) d

pub entry_cluster-Quiet :
    (s s' : State) (cs : List ℕ) (i : ℕ) → Quiet s s' → entry_cluster s' cs i ≡ entry_cluster s cs i
entry_cluster-Quiet s s' cs i q =
    ap (λ b. first_cluster_of (from b (i * dirent_size))) (fun_ext (λ p. Quiet-stream q cs p))

module _ {s : State} {t : ℕ → ℕ} {fuel : ℕ} where
  pub Leads-append :
      {c d e : ℕ} {names more : List (List ℕ)}
      → Leads s t fuel c names d
      → Leads s t fuel d more e
      → Leads s t fuel c (names ++ more) e
  Leads-append here m = m
  Leads-append (into cs i w lt found_i dir l) m = into cs i w lt found_i dir (Leads-append l m)

  -- The directories on the way.
  pub Leads-take :
      (n : ℕ) {c d : ℕ} {names : List (List ℕ)}
      → Leads s t fuel c names d
      → (e : ℕ) × Leads s t fuel c (take n names) e
  Leads-take zero l = (_, here)
  Leads-take (suc n) here = (_, here)
  Leads-take (suc n) (into cs i w lt found_i dir l) =
      let (e, m) = Leads-take n l in (e, into cs i w lt found_i dir m)

  -- A read-only step keeps what leads where.
  pub Leads-Quiet :
      (s' : State)
      → Quiet s s'
      → {c d : ℕ} {names : List (List ℕ)} → Leads s t fuel c names d
      → Leads s' t fuel c names d
  Leads-Quiet s' q here = here
  Leads-Quiet s' q {c} {d} (into {names} cs i w lt found_i dir l) =
      into cs i (subst (λ f. Whole f t c cs) (sym q.same_fs) w) lt
        (Quiet-search_chain cs _ q ∙ found_i)
        (ap (λ b. bit b 4) (Quiet-stream q cs (i * dirent_size + 11)) ∙ dir)
        (subst (λ c. Leads s' t fuel c names d) (sym (entry_cluster-Quiet s s' cs i q))
          (Leads-Quiet s' q {c = entry_cluster s cs i} l))

-- The first cluster of a place that is an entry of the chain.
pub first_cluster_lem :
    (s : State) (cs : List ℕ) (i : ℕ) (p : Place)
    → IsAt s cs i p
    → first_cluster_of p.entry ≡ entry_cluster s cs i
unfolding read16
first_cluster_lem s cs i p at =
    let a = at.entry 20 (omega arith) in
    let b = at.entry 21 (omega arith) in
    let c = at.entry 26 (omega arith) in let d = at.entry 27 (omega arith) in rw (a, b, c, d)

-- The loop that looks the names up ends where they lead.
pub follow_lem :
    {t : ℕ → ℕ} {fuel : ℕ} {s0 : State}
    → Holds s0 t
    → {s : State} → Quiet s0 s
    → {c d : ℕ} {names : List (List ℕ)} → Leads s0 t fuel c names d
    → (s' : State) × (follow fuel names c s ≡ some (some d, s')) × Quiet s0 s'
unfolding follow Reports
follow_lem h {s} q here = (s, refl, q)
follow_lem {t} {fuel} {s0} h {s} q {c} {d} (into {name} {names} cs i w lt found_i dir l) =
    let (o, s1, ends, reports, q1) =
      find_entry_lem fuel c name s t cs (Quiet-Holds q h)
        (subst (λ f. Whole f t c cs) (sym q.same_fs) w) lt in
    let (p, is, at) =
      subst (λ r. Reports s cs r o) (Quiet-search_chain cs (to_short_name name) q ∙ found_i)
        reports in
    let first : first_cluster_of p.entry ≡ entry_cluster s0 cs i =
      first_cluster_lem s cs i p at ∙ entry_cluster-Quiet s0 s cs i q in
    let (s2, rest, q2) =
      follow_lem {t = t} {fuel = fuel} {s0 = s0} h {s = s1} (Quiet-trans q q1)
        {c = entry_cluster s0 cs i} {d = d} {names = names} l in
    (s2, rw (follow, ends, is, first) rest, q2)
