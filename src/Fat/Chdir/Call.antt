-- ===== src/Fat/Chdir/Call.antt =====
-- A whole `fat32_chdir` of src/fs/fat32.c: the names on the stack lead to the current directory.
use quantum_kernel.Fat.Chdir.Arrives.{
  take_all, NoDirectory, target, Arrives, found_inj, to_parent_lem,
}
use quantum_kernel.Fat.File.Chain.{Quiet}
use quantum_kernel.Fat.Table.View.{Holds}
use quantum_kernel.Prelude.{
  bit, lt→ltb, Bool-cases, length, pos, negsuc, ℕ, ◌-◌, ◌<◌, ◌≡◌, refl, sym, ap, ◌∙◌, inl, inr,
  false, none, some, List, [], ◌∷◌, ◌++◌, arith,
}
use mathlib.Core.Path.{subst}
use quantum_kernel.Fat.{State}
use quantum_kernel.Fat.Chdir.{
  Moved, chdir, to_child, push_name, same_string, root_path, parent_path, max_path_depth,
  max_name_len,
}
use quantum_kernel.Fat.Chdir.Located.{Leads, here, into, first_cluster_lem, Leads-append}
use quantum_kernel.Fat.Directory.{
  Place, Scanned, found, at_end, passed, find_entry, first_cluster_of,
}
use quantum_kernel.Fat.Directory.Whole.{search_chain, Whole, Reports, IsAt}
use quantum_kernel.Fat.Directory.Find.{find_entry_lem}
use quantum_kernel.Fat.Name.{to_short_name}

module _ (fuel : ℕ) (names : List (List ℕ)) (s : State) {t : ℕ → ℕ} (h : Holds s t)
    (leads : Leads s t fuel s.fs.root_dir_first_cluster names s.current_dir_cluster) where
  -- A name in the current directory.
  module _ (path : List ℕ) (short : length path < max_name_len)
      (below : same_string path root_path ≡ false) (down : same_string path parent_path ≡ false)
      (room : length names < max_path_depth) (cs : List ℕ)
      (whole : Whole s.fs t s.current_dir_cluster cs) (enough : length cs < fuel) where
    push_name-eq : push_name path names ≡ names ++ path ∷ []
    unfolding push_name
    push_name-eq =
        rw (lt→ltb (length names) max_path_depth room)
          (ap (λ p. names ++ p ∷ []) (take_all (max_name_len - 1) path (omega arith)))

    fails :
        (s' : State)
        → find_entry fuel s.current_dir_cluster path s ≡ some (none, s')
        → NoDirectory s cs path
        → Quiet s s'
        → (m : Moved) × (to_child fuel path names s ≡ some m) × Arrives fuel path names s t cs m
    unfolding to_child
    fails s' ends none_found q = (
      record { result = negsuc 0; names = names; state = s' },
      rw (to_child, ends),
      record {
        same_fs = q.same_fs;
        same_sectors = q.same_sectors;
        leads =
            subst (λ c. Leads s t fuel s.fs.root_dir_first_cluster names c) (sym q.same_dir) leads;
        outcome = inr (refl, refl, q.same_dir, none_found);
      },
    )

    enters :
        (i : ℕ) (p : Place) (s' : State)
        → find_entry fuel s.current_dir_cluster path s ≡ some (some p, s')
        → search_chain s cs (to_short_name path) ≡ found i
        → IsAt s cs i p
        → Quiet s s'
        → (m : Moved) × (to_child fuel path names s ≡ some m) × Arrives fuel path names s t cs m
    unfolding to_child target
    enters i p s' ends found_i at q = elim (Bool-cases (bit (p.entry 11) 4)) [
      | inl is_dir ↦ (
        record {
          result = pos 0;
          names = push_name path names;
          state = record s' { current_dir_cluster = first_cluster_of p.entry };
        },
        rw (to_child, ends, is_dir),
        record {
          same_fs = q.same_fs;
          same_sectors = q.same_sectors;
          leads =
              rw (push_name-eq, first_cluster_lem s cs i p at)
                (Leads-append leads (
                  into cs i whole enough found_i
                    (ap (λ a. bit a 4) (sym (at.entry 11 (omega arith))) ∙ is_dir) here));
          outcome = inl (refl, push_name-eq ∙ rw (below, down));
        },
      )
      | inr no_dir ↦ (
        record { result = negsuc 0; names = names; state = s' },
        rw (to_child, ends, no_dir),
        record {
          same_fs = q.same_fs;
          same_sectors = q.same_sectors;
          leads =
              subst (λ c. Leads s t fuel s.fs.root_dir_first_cluster names c) (sym q.same_dir)
                leads;
          outcome = inr (
            refl,
            refl,
            q.same_dir,
            λ j found_j.
                let same : j ≡ i = found_inj (sym found_j ∙ found_i) in
                rw same (ap (λ a. bit a 4) (sym (at.entry 11 (omega arith))) ∙ no_dir),
          );
        },
      )
    ]

-- `fat32_chdir` on a mounted volume whose disk does not fail, when the names on the stack lead from
-- the root to the current directory, each by an entry with ATTR_DIRECTORY, a row of the stack is
-- free, the path has fewer characters than a row, and the current directory's chain leads out of the
-- volume after fewer clusters than the fuel: it ends, nothing is written, the names lead in the same
-- way to the directory it then stands in, and it returns 0 with the names of the path's target, or it returns -1 and stands where it stood, since
-- the first entry of that name, if there is one, is no directory.
pub chdir_lem :
    (fuel : ℕ) (path : List ℕ) (names : List (List ℕ)) (s : State) (t : ℕ → ℕ) (cs : List ℕ)
    → Holds s t
    → Leads s t fuel s.fs.root_dir_first_cluster names s.current_dir_cluster
    → length path < max_name_len
    → length names < max_path_depth
    → Whole s.fs t s.current_dir_cluster cs
    → length cs < fuel
    → (m : Moved) × (chdir fuel path names s ≡ some m) × Arrives fuel path names s t cs m
unfolding chdir Reports target
chdir_lem fuel path names s t cs h leads short room whole enough =
    elim (Bool-cases (same_string path root_path)) [
      | inl to_root ↦ (
        record {
          result = pos 0;
          names = [];
          state = record s { current_dir_cluster = s.fs.root_dir_first_cluster };
        },
        rw to_root,
        record {
          same_fs = refl;
          same_sectors = refl;
          leads = here;
          outcome = inl (refl, rw to_root);
        },
      )
      | inr below ↦ elim (Bool-cases (same_string path parent_path)) [
        | inl up ↦
            let (m, ends, arrives) = to_parent_lem fuel names s h leads path cs below up in
            (m, rw (below, up) ends, arrives)
        | inr down ↦
            let (o, s', ends, reports, q) =
              find_entry_lem fuel s.current_dir_cluster path s t cs h whole enough in
            let r = search_chain s cs (to_short_name path) in
            let child : (m : Moved) × (to_child fuel path names s ≡ some m)
                × Arrives fuel path names s t cs m =
              elim r
                  as (λ (x : Scanned).
                    r ≡ x
                    → Reports s cs x o
                    → (m : Moved) × (to_child fuel path names s ≡ some m)
                      × Arrives fuel path names s t cs m) [
                        | at_end ↦ λ e none_found.
                            fails fuel names s h leads path short below down room cs whole enough s'
                              (ends ∙ ap (λ x. some (x, s')) none_found)
                              (λ i hit. absurd (ground (arith, e, hit))) q
                        | passed ↦ λ e none_found.
                            fails fuel names s h leads path short below down room cs whole enough s'
                              (ends ∙ ap (λ x. some (x, s')) none_found)
                              (λ i hit. absurd (ground (arith, e, hit))) q
                        | found i ↦ λ e at.
                            enters fuel names s h leads path short below down room cs whole enough i
                              at.0 s' (ends ∙ ap (λ x. some (x, s')) at.1) e at.2 q
                      ]
                refl reports in
            let (m, does, arrives) = child in (m, rw (below, down) does, arrives)
      ]
    ]
