-- ===== src/Syscall/Open.antt =====
-- SYS_OPEN of src/user/syscall.c for a file that is there or not, over src/fs/fat32.c.
use quantum_kernel.Fat.Table.View.{Holds}
use quantum_kernel.Fat.File.Chain.{stream}
use quantum_kernel.Prelude.{
  ltb, if◌then◌else◌, bit, u8, lt→ltb, ==_iff, Bool-cases, Option-cases, length, ℤ, Option, pos,
  negsuc, ℕ, zero, suc, ◌+◌, ◌*◌, ◌≤◌, ◌<◌, ◌≡◌, refl, sym, ap, ◌∙◌, ◌≢◌, ◌⊎◌, inl, inr, true,
  false, none, some, List, arith, ◌==◌,
}
use quantum_kernel.Bytes.{from, read32}
use mathlib.Core.Option
use quantum_kernel.Fat.{State}
use quantum_kernel.Fat.File.{File}
use quantum_kernel.Fat.Chdir.Located.{entry_cluster, first_cluster_lem}
use quantum_kernel.Fat.Create.{open_file, cleared, returned, open_found, opened, truncate, file_of}
use quantum_kernel.Fat.Directory.{Place, Scanned, found, at_end, passed, find_entry, dirent_size}
use quantum_kernel.Fat.Directory.Find.{find_entry_lem}
use quantum_kernel.Fat.Directory.Whole.{search_chain, Whole, Reports, IsAt}
use quantum_kernel.Fat.Name.{to_short_name}
use quantum_kernel.Syscall.{System, Descriptors, max_files, first_unused, free_fd, mark, put_file}
use quantum_kernel.Syscall.Files.{Done, sys_open, after_open, fails}
use quantum_kernel.Syscall.Table.{alloc_fd-none, alloc_fd-some, first_unused_lem}

first_unused-none :
    (n i : ℕ) (d : Descriptors)
    → first_unused n i d ≡ none
    → (k : ℕ) → i ≤ k
    → k < i + n
    → d.file_used k ≡ true
unfolding first_unused
first_unused-none zero i d e k lo hi = absurd (omega arith)
first_unused-none (suc n) i d e k lo hi = elim (Bool-cases (d.file_used i)) [
  | inl used ↦ elim (Bool-cases (k == i)) [
    | inl same ↦ rw ((==_iff k i).0 same) used
    | inr other ↦ first_unused-none n (i + 1) d (rw used at e) k (ground arith) (omega arith)
  ]
  | inr unused ↦ absurd (ground (arith, e, unused))
]

-- The file of entry `i` of the directory, open in slot `fd`, which was the first one unused.
pub record Opens (cs : List ℕ) (flags : ℕ) (i fd : ℕ) (s : System) (d : Done) : Type 0 where
  pub eax : d.eax ≡ pos fd
  pub in_table : fd < max_files
  pub unused : s.files.file_used fd ≡ false
  pub first : (k : ℕ) → k < fd → s.files.file_used k ≡ true
  pub used : (k : ℕ) → d.system.files.file_used k ≡ (if k == fd then true else s.files.file_used k)
  pub others : (k : ℕ) → k ≢ fd → d.system.files.file_table k ≡ s.files.file_table k
  pub opens : (d.system.files.file_table fd).is_open ≡ true
  pub cluster : (d.system.files.file_table fd).first_cluster ≡ entry_cluster s.fat cs i
  pub size :
      (d.system.files.file_table fd).file_size
      ≡ read32 (from (stream s.fat cs) (i * dirent_size)) 28
  pub position :
      (d.system.files.file_table fd).position
      ≡ (if bit (u8 flags) 4 then (d.system.files.file_table fd).file_size else 0)

-- The name is not found: the file in slot `fd`, which was the first one unused and is unused again,
-- has been cleared.
pub record Misses (cs : List ℕ) (path : List ℕ) (fd : ℕ) (s : System) (d : Done) : Type 0 where
  pub in_table : fd < max_files
  pub unused : s.files.file_used fd ≡ false
  pub first : (k : ℕ) → k < fd → s.files.file_used k ≡ true
  pub missing : (i : ℕ) → search_chain s.fat cs (to_short_name path) ≢ found i
  pub slot : d.system.files.file_table fd ≡ cleared
  pub others : (k : ℕ) → k ≢ fd → d.system.files.file_table k ≡ s.files.file_table k

-- Every slot is in use, and then no file changes, or the name is not found; no slot has changed hands.
pub record Refuses (cs : List ℕ) (path : List ℕ) (s : System) (d : Done) : Type 0 where
  pub eax : d.eax ≡ negsuc 0
  pub reason :
      (((k : ℕ) → k < max_files → s.files.file_used k ≡ true) × (d.system.files ≡ s.files))
      ⊎ ((fd : ℕ) × Misses cs path fd s d)
  pub used : (k : ℕ) → d.system.files.file_used k ≡ s.files.file_used k

pub OpenOutcome : List ℕ → List ℕ → ℕ → System → Done → Type 0
OpenOutcome cs path flags s d =
    ((i fd : ℕ) × (search_chain s.fat cs (to_short_name path) ≡ found i) × Opens cs flags i fd s d)
    ⊎ Refuses cs path s d

-- The size in an entry of the chain.
size_lem :
    (s : State) (cs : List ℕ) (i : ℕ) (p : Place)
    → IsAt s cs i p
    → read32 p.entry 28 ≡ read32 (from (stream s cs) (i * dirent_size)) 28
unfolding read32
size_lem s cs i p at =
    let a = at.entry 28 (omega arith) in
    let b = at.entry 29 (omega arith) in
    let c = at.entry 30 (omega arith) in let d = at.entry 31 (omega arith) in rw (a, b, c, d)

open_found_plain :
    (fuel : ℕ) (path : List ℕ) (flags : ℕ) (p : Place) (s : State)
    → bit flags 3 ≡ false
    → open_found fuel path flags (some (some p, s)) ≡ some (some (opened flags (file_of p)), s)
unfolding open_found truncate
open_found_plain fuel path flags p s keep = rw (truncate, keep) refl

open_found-none :
    (fuel : ℕ) (path : List ℕ) (flags : ℕ) (s : State)
    → bit flags 2 ≡ false
    → open_found fuel path flags (some (none, s)) ≡ some (none, s)
unfolding open_found
open_found-none fuel path flags s no_new = rw (open_found, no_new) refl

all_used_eq :
    (fuel : ℕ) (path : List ℕ) (flags : ℕ) (s : System)
    → first_unused max_files 0 s.files ≡ none
    → sys_open fuel path flags s ≡ some (fails s)
unfolding sys_open
all_used_eq fuel path flags s e = rw (sys_open, alloc_fd-none s.files e) refl

abbrev after : ℕ → System → Option (ℤ × File × State) → Option Done
after fd s = after_open fd (mark fd true s.files) s

module _ (fuel : ℕ) (path : List ℕ) (flags : ℕ) (s : System) (cs : List ℕ) (fd : ℕ)
    (e : first_unused max_files 0 s.files ≡ some fd) where
  sys_open_eq :
      sys_open fuel path flags s
      ≡ after_open fd (mark fd true s.files) s (open_file fuel path (u8 flags) s.fat)
  unfolding sys_open
  sys_open_eq = rw (sys_open, alloc_fd-some s.files fd e, alloc_fd-some s.files fd e)

  opens_entry :
      (i : ℕ) (p : Place) (fat : State)
      → find_entry fuel s.fat.current_dir_cluster path s.fat ≡ some (some p, fat)
      → search_chain s.fat cs (to_short_name path) ≡ found i
      → IsAt s.fat cs i p
      → bit (u8 flags) 3 ≡ false
      → (d : Done) × (sys_open fuel path flags s ≡ some d) × OpenOutcome cs path flags s d
  unfolding open_file after_open returned OpenOutcome opened file_of
  opens_entry i p fat ends hit at keep =
      let f = opened (u8 flags) (file_of p) in
      let (_, lt, unused, before) = first_unused_lem max_files 0 s.files fd e in
      let self : (fd == fd) ≡ true = (==_iff fd fd).1 refl in
      (
        record {
          eax = pos fd;
          system = record s { fat = fat; files = put_file fd f (mark fd true s.files) };
        },
        sys_open_eq
            ∙ ap (λ o. after fd s (Option.map returned (open_found fuel path (u8 flags) o))) ends
            ∙ ap (λ o. after fd s (Option.map returned o))
                (open_found_plain fuel path (u8 flags) p fat keep),
        inl (
          i,
          fd,
          hit,
          record {
            eax = refl;
            in_table = omega (arith, lt);
            unused = unused;
            first = λ k hk. before k (omega arith) hk;
            used = λ k. refl;
            others = λ k ne. ground (arith, ne);
            opens = rw self refl;
            cluster = rw self (first_cluster_lem s.fat cs i p at);
            size = rw self (size_lem s.fat cs i p at);
            position = rw self refl;
          },
        ),
      )

  refuses_entry :
      (fat : State)
      → find_entry fuel s.fat.current_dir_cluster path s.fat ≡ some (none, fat)
      → ((i : ℕ) → search_chain s.fat cs (to_short_name path) ≢ found i)
      → bit (u8 flags) 2 ≡ false
      → (d : Done) × (sys_open fuel path flags s ≡ some d) × OpenOutcome cs path flags s d
  unfolding open_file after_open returned OpenOutcome free_fd
  refuses_entry fat ends missing no_new =
      let (_, lt, unused, before) = first_unused_lem max_files 0 s.files fd e in
      let self : (fd == fd) ≡ true = (==_iff fd fd).1 refl in
      let in_table : ltb fd max_files ≡ true = lt→ltb fd max_files (omega (arith, lt)) in
      (
        fails (record s {
          fat = fat;
          files = mark fd false (put_file fd cleared (mark fd true s.files));
        }),
        sys_open_eq
            ∙ ap (λ o. after fd s (Option.map returned (open_found fuel path (u8 flags) o))) ends
            ∙ ap (λ o. after fd s (Option.map returned o))
                (open_found-none fuel path (u8 flags) fat no_new)
            ∙ rw in_table refl,
        inr (record {
          eax = refl;
          reason = inr (
            fd,
            record {
              in_table = omega (arith, lt);
              unused = unused;
              first = λ k hk. before k (omega arith) hk;
              missing = missing;
              slot = rw self refl;
              others = λ k ne. ground (arith, ne);
            },
          );
          used = λ k. elim (Bool-cases (k == fd)) [
            | inl same ↦ rw same (sym unused ∙ ap s.files.file_used (sym ((==_iff k fd).0 same)))
            | inr other ↦ rw other refl
          ];
        }),
      )

-- SYS_OPEN without FAT32_O_CREATE and FAT32_O_TRUNC, on a mounted volume whose disk does not fail,
-- when the current directory's chain leads out of the volume after fewer clusters than the fuel: it
-- ends. Either the name is found in the directory and a slot is free, and then it returns the lowest
-- free descriptor, which holds an open file with the entry's first cluster and size, at its start or,
-- with FAT32_O_APPEND, at its end; or it returns -1 and no descriptor changes hands, either because
-- every slot is in use, and then no file changes, or because the name is not found, and then the
-- file in the first unused slot is cleared and all others are as they were.
pub sys_open_lem :
    (fuel : ℕ) (path : List ℕ) (flags : ℕ) (s : System) (t : ℕ → ℕ) (cs : List ℕ)
    → Holds s.fat t
    → Whole s.fat.fs t s.fat.current_dir_cluster cs
    → length cs < fuel
    → bit (u8 flags) 2 ≡ false
    → bit (u8 flags) 3 ≡ false
    → (d : Done) × (sys_open fuel path flags s ≡ some d) × OpenOutcome cs path flags s d
unfolding OpenOutcome Reports
sys_open_lem fuel path flags s t cs h whole enough no_new keep =
    let (o, fat, ends, reports, q) =
      find_entry_lem fuel s.fat.current_dir_cluster path s.fat t cs h whole enough in
    let r = search_chain s.fat cs (to_short_name path) in
    elim (Option-cases (first_unused max_files 0 s.files)) [
      | inl full ↦ (
        fails s,
        all_used_eq fuel path flags s full,
        inr (record {
          eax = refl;
          reason = inl (
            λ k lt. first_unused-none max_files 0 s.files full k (omega arith) (omega arith),
            refl,
          );
          used = λ k. refl;
        }),
      )
      | inr (fd, e) ↦
          elim r
              as (λ (x : Scanned).
                r ≡ x
                → Reports s.fat cs x o
                → (d : Done) × (sys_open fuel path flags s ≡ some d)
                  × OpenOutcome cs path flags s d) [
                    | at_end ↦ λ miss none_found.
                        refuses_entry fuel path flags s cs fd e fat
                          (ends ∙ ap (λ x. some (x, fat)) none_found)
                          (λ i hit. absurd (ground (arith, miss, hit))) no_new
                    | passed ↦ λ miss none_found.
                        refuses_entry fuel path flags s cs fd e fat
                          (ends ∙ ap (λ x. some (x, fat)) none_found)
                          (λ i hit. absurd (ground (arith, miss, hit))) no_new
                    | found i ↦ λ hit at.
                        opens_entry fuel path flags s cs fd e i at.0 fat
                          (ends ∙ ap (λ x. some (x, fat)) at.1) hit at.2 keep
                  ]
            refl reports
    ]
