-- ===== src/Fat/Tests/Directories.antt =====
-- A volume whose root directory has one entry, a directory `SUB` in cluster 4: the theorems on
-- lookup and on `fat32_chdir` of src/fs/fat32.c at concrete inputs.
use quantum_kernel.Fat.Cluster.Laws.{content}
use quantum_kernel.Fat.Table.View.{Holds}
use quantum_kernel.Fat.File.Chain.{Quiet, stream}
use quantum_kernel.Prelude.{
  if◌then◌else◌, ℕ, ◌+◌, ◌*◌, ◌/◌, ◌≡◌, refl, true, false, ◌||◌, Option, some, List, [], ◌∷◌, arith,
  ◌==◌,
}
use quantum_kernel.Bytes.{Bytes, zeros, read32, write32, store_list, fill, write8, write16}
use quantum_kernel.Fat.{State}
use quantum_kernel.Fat.Tests.{state, table, table_bytes, fs, entry}
use quantum_kernel.Fat.Chdir.{Moved, chdir}
use quantum_kernel.Fat.Chdir.Arrives.{Arrives}
use quantum_kernel.Fat.Chdir.Call.{chdir_lem}
use quantum_kernel.Fat.Chdir.Located.{here}
use quantum_kernel.Fat.Create.{put_entry}
use quantum_kernel.Fat.Directory.{Place, find_entry, scan, same_name, found}
use quantum_kernel.Fat.Directory.Find.{find_entry_lem}
use quantum_kernel.Fat.Directory.Whole.{Whole, outward, search_chain, Reports}
use quantum_kernel.Fat.Name.{to_short_name, put_chars, last_dot, upper}
use quantum_kernel.Fat.Table.Entries.{entry}

abbrev pub sub : List ℕ
sub = b'S' ∷ b'U' ∷ b'B' ∷ []

abbrev pub root : Bytes
root = put_entry (to_short_name sub) 0x10 4 0 zeros

abbrev pub volume : State
volume = record state {
  disk = record {
    sectors = λ a. if a == 1 || a == 2 then table_bytes else if a == 3 then root else zeros;
    faults = λ n. false;
    clock = 0;
  };
}

pub volume-Holds : Holds volume table
unfolding entry
volume-Holds = record {
  mounted = omega arith;
  reliable = λ n. refl;
  table = λ i c hi hc.
      let e : (1 + i * 1 + c / 128 == 1 || 1 + i * 1 + c / 128 == 2) ≡ true = ground arith in rw e;
}

pub root-Whole : Whole fs table 2 (2 ∷ [])
unfolding read32 write32
root-Whole = outward (omega arith) (λ r. absurd (omega arith))

find_entry_lem_example :
    (o : Option Place) × (s' : State) × (find_entry 2 2 sub volume ≡ some (o, s'))
    × Reports volume (2 ∷ []) (search_chain volume (2 ∷ []) (to_short_name sub)) o
    × Quiet volume s'
find_entry_lem_example =
    find_entry_lem 2 2 sub volume table (2 ∷ []) volume-Holds root-Whole (omega arith)

chdir_lem_example :
    (m : Moved) × (chdir 2 sub [] volume ≡ some m) × Arrives 2 sub [] volume table (2 ∷ []) m
chdir_lem_example =
    chdir_lem 2 sub [] volume table (2 ∷ []) volume-Holds here (omega arith) (omega arith)
      root-Whole (omega arith)

finds_sub : search_chain volume (2 ∷ []) (to_short_name sub) ≡ found 0
unfolding search_chain scan same_name stream content put_entry to_short_name put_chars last_dot
    upper store_list fill write8 write16
finds_sub = refl
