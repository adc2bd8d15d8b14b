-- ===== src/Fat/Chdir/Arrives.antt =====
-- Where `fat32_chdir` of src/fs/fat32.c arrives, and its branch to the parent directory.
use quantum_kernel.Fat.File.Chain.{Quiet-refl, stream}
use quantum_kernel.Fat.Table.View.{Holds}
use quantum_kernel.Prelude.{
  if◌then◌else◌, bit, Bool-cases, length, take, pos, negsuc, ℕ, zero, suc, ◌+◌, ◌-◌, ◌*◌, ◌≤◌, ◌≡◌,
  refl, sym, ap, ◌⊎◌, inl, inr, true, false, some, List, [], ◌∷◌, ◌++◌, arith, ◌==◌,
}
use mathlib.Core.Path.{subst}
use quantum_kernel.Fat.{State}
use quantum_kernel.Fat.Chdir.{Moved, to_parent, without_last, same_string, root_path, parent_path}
use quantum_kernel.Fat.Chdir.Located.{Leads, here, Leads-take, follow_lem}
use quantum_kernel.Fat.Directory.{found, dirent_size}
use quantum_kernel.Fat.Directory.Whole.{search_chain}
use quantum_kernel.Fat.Name.{to_short_name}

pub take_all : (n : ℕ) (xs : List ℕ) → length xs ≤ n → take n xs ≡ xs
take_all zero [] h = refl
take_all zero (x ∷ xs) h = absurd (omega arith)
take_all (suc n) [] h = refl
take_all (suc n) (x ∷ xs) h = ap (x ∷◌) (take_all n xs (omega arith))

no_length : (names : List (List ℕ)) → (length names == 0) ≡ true → names ≡ []
no_length [] h = refl
no_length (name ∷ names) h = absurd (ground arith)

pub found_inj : {i j : ℕ} → found i ≡ found j → i ≡ j
found_inj e = ground (arith, e)

-- The names that a path leads to.
unfoldable pub target : List ℕ → List (List ℕ) → List (List ℕ)
target path names =
    if same_string path root_path
    then []
    else if same_string path parent_path
    then without_last names
    else names ++ path ∷ []

-- No entry of the directory is the one of a directory with that name.
abbrev pub NoDirectory : State → List ℕ → List ℕ → Type 0
NoDirectory s cs path =
    (i : ℕ)
    → search_chain s cs (to_short_name path) ≡ found i
    → bit (stream s cs (i * dirent_size + 11)) 4 ≡ false

-- What a call that ends has done: the names lead to the directory it stands in, and nothing is
-- written; a call that fails has found no directory and stays where it was.
pub record Arrives (fuel : ℕ) (path : List ℕ) (names : List (List ℕ)) (s : State) (t : ℕ → ℕ)
    (cs : List ℕ) (m : Moved) : Type 0 where
  pub same_fs : m.state.fs ≡ s.fs
  pub same_sectors : m.state.disk.sectors ≡ s.disk.sectors
  pub leads : Leads s t fuel s.fs.root_dir_first_cluster m.names m.state.current_dir_cluster
  pub outcome :
      ((m.result ≡ pos 0) × (m.names ≡ target path names))
      ⊎ ((m.result ≡ negsuc 0)
          × (m.names ≡ names)
          × (m.state.current_dir_cluster ≡ s.current_dir_cluster)
          × NoDirectory s cs path)

module _ (fuel : ℕ) (names : List (List ℕ)) (s : State) {t : ℕ → ℕ} (h : Holds s t)
    (leads : Leads s t fuel s.fs.root_dir_first_cluster names s.current_dir_cluster) where
  pub to_parent_lem :
      (path : List ℕ) (cs : List ℕ)
      → same_string path root_path ≡ false
      → same_string path parent_path ≡ true
      → (m : Moved) × (to_parent fuel names s ≡ some m) × Arrives fuel path names s t cs m
  unfolding to_parent without_last target
  to_parent_lem path cs below up =
      let rest = take (length names - 1) names in
      let root = s.fs.root_dir_first_cluster in
      let (e, way) = Leads-take (length names - 1) leads in
      let (s', ends, q) = follow_lem h (Quiet-refl s) way in
      elim (Bool-cases (length names == 0)) [
        | inl no_names ↦ (
          record { result = pos 0; names = names; state = s },
          rw no_names,
          record {
            same_fs = refl;
            same_sectors = refl;
            leads = leads;
            outcome = inl (refl, rw (no_length names no_names, below, up));
          },
        )
        | inr some_names ↦ elim (Bool-cases (length rest == 0)) [
          | inl no_rest ↦ (
            record {
              result = pos 0;
              names = rest;
              state = record s { current_dir_cluster = root };
            },
            rw (some_names, no_rest),
            record {
              same_fs = refl;
              same_sectors = refl;
              leads = subst (λ l. Leads s t fuel root l root) (sym (no_length rest no_rest)) here;
              outcome = inl (refl, rw (below, up));
            },
          )
          | inr some_rest ↦ (
            record { result = pos 0; names = rest; state = record s' { current_dir_cluster = e } },
            rw (some_names, some_rest, ends),
            record {
              same_fs = q.same_fs;
              same_sectors = q.same_sectors;
              leads = way;
              outcome = inl (refl, rw (below, up));
            },
          )
        ]
      ]
