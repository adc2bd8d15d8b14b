-- ===== src/Syscall/Opened.antt =====
-- What the calls of src/fs/fat32.c leave of a file's being open, whatever they return.
use quantum_kernel.Prelude.{
  leb, if◌then◌else◌, bit, Bool-cases, Option-cases, ℤ, ℕ, ◌/◌, ◌≡◌, refl, ◌⊎◌, inl, inr, Bool,
  true, false, Option, none, some, List, ◌==◌, pos, arith,
}
use mathlib.Core.Option
use quantum_kernel.Bytes.{Bytes}
use quantum_kernel.Fat.{State}
use quantum_kernel.Fat.Create.{
  open_file, open_new, opened, truncate, file_of, give_up, open_entry, open_made, open_found,
  returned,
}
use quantum_kernel.Fat.Directory.{Place, find_entry}
use quantum_kernel.Fat.File.{File, ReadResult, Reading, read, read_open, finish_reading, seek}
use quantum_kernel.Fat.Table.{alloc_cluster, free_cluster_chain}
use quantum_kernel.Fat.Write.{
  Writing, WriteResult, write, write_open, write_chain, finish_writing, skip_or_extend,
}

-- Of every value of an option.
unfoldable pub Each : {A : Type 0} → (A → Type 0) → Option A → Type 0
Each P none = Unit
Each P (some a) = P a

pub Each-map :
    {A B : Type 0} (P : A → Type 0) (Q : B → Type 0) (f : A → B)
    → ((a : A) → P a → Q (f a))
    → (o : Option A) → Each P o
    → Each Q (Option.map f o)
unfolding Each
Each-map P Q f h none e = tt
Each-map P Q f h (some a) e = h a e

pub any : {A : Type 0} (o : Option A) → Each (λ (a : A). Unit) o
unfolding Each
any none = tt
any (some a) = tt

pub Each-if :
    {A : Type 0} (P : A → Type 0) (b : Bool) (x y : Option A)
    → Each P x
    → Each P y
    → Each P (if b then x else y)
Each-if P true x y p q = p
Each-if P false x y p q = q

-- The file is as open as before.
abbrev pub Kept : File → ℤ ⊎ ReadResult → Type 0
Kept f (inl _) = Unit
Kept f (inr r) = r.file.is_open ≡ f.is_open

finish_reading_open :
    (f : File) (o : Option (Reading × State))
    → Each (λ r. r.file.is_open ≡ f.is_open) (finish_reading f o)
unfolding finish_reading Each
finish_reading_open f none = tt
finish_reading_open f (some (r, s)) = refl

read_open_open :
    (f : File) (buffer : Bytes) (size : ℕ) (s : State)
    → Each (λ r. r.file.is_open ≡ f.is_open) (read_open f buffer size s)
unfolding read_open Each
read_open_open f buffer size s =
    Each-if (λ (r : ReadResult). r.file.is_open ≡ f.is_open) (leb f.file_size f.position) _ _ refl
      (finish_reading_open _ _)

pub read-Kept :
    (f : File) (buffer : Option Bytes) (size : ℕ) (s : State)
    → Each (Kept f) (read (some f) buffer size s)
unfolding read Each
read-Kept f none size s = tt
read-Kept f (some buffer) size s =
    Each-if (Kept f) f.is_open _ _
      (Each-map (λ (r : ReadResult). r.file.is_open ≡ f.is_open) (Kept f) inr (λ r h. h)
        (read_open f buffer size s) (read_open_open f buffer size s))
      tt

finish_writing_open :
    (f : File) (o : Option (Writing × State))
    → Each (λ (r : WriteResult). r.file.is_open ≡ f.is_open) (finish_writing f o)
unfolding finish_writing Each
finish_writing_open f none = tt
finish_writing_open f (some (w, s)) = refl

write_chain_open :
    (f : File) (buffer : Bytes) (size : ℕ) (s : State)
    → Each (λ (r : WriteResult). r.file.is_open ≡ f.is_open) (write_chain f buffer size s)
unfolding write_chain Each
write_chain_open f buffer size s =
    elim (Option-cases (skip_or_extend (f.position / s.fs.bytes_per_cluster) f.first_cluster s).0) [
      | inl e ↦ rw (write_chain, e) refl
      | inr (c, e) ↦ rw (write_chain, e) (finish_writing_open _ _)
    ]

write_open_open :
    (f : File) (buffer : Bytes) (size : ℕ) (s : State)
    → Each (λ (r : WriteResult). r.file.is_open ≡ f.is_open) (write_open f buffer size s)
unfolding write_open Each
write_open_open f buffer size s =
    let new = (alloc_cluster s).0 in
    let begun = record f { first_cluster = new; current_cluster = new } in
    let P : WriteResult → Type 0 = λ r. r.file.is_open ≡ f.is_open in
    Each-if P (f.first_cluster == 0) _ _
      (Each-if P (new == 0) _ _ refl (write_chain_open begun buffer size (alloc_cluster s).1))
      (write_chain_open f buffer size s)

abbrev pub KeptWriting : File → ℤ ⊎ WriteResult → Type 0
KeptWriting f (inl _) = Unit
KeptWriting f (inr r) = r.file.is_open ≡ f.is_open

pub write-Kept :
    (f : File) (buffer : Option Bytes) (size : ℕ) (s : State)
    → Each (KeptWriting f) (write (some f) buffer size s)
unfolding write Each
write-Kept f none size s = tt
write-Kept f (some buffer) size s =
    Each-if (KeptWriting f) f.is_open _ _
      (Each-map (λ (r : WriteResult). r.file.is_open ≡ f.is_open) (KeptWriting f) inr (λ r h. h)
        (write_open f buffer size s) (write_open_open f buffer size s))
      tt

pub seek_open : (f : File) (offset whence : ℕ) → (seek f offset whence).1.is_open ≡ f.is_open
unfolding seek
seek_open f offset whence = elim (Bool-cases f.is_open) [
  | inl e ↦ elim (Bool-cases (whence == 0)) [
    | inl a ↦ rw (seek, e, a) refl
    | inr a ↦ elim (Bool-cases (whence == 1)) [
      | inl b ↦ rw (seek, e, a, b) refl
      | inr b ↦ elim (Bool-cases (whence == 2)) [
        | inl c ↦ rw (seek, e, a, b, c) refl
        | inr c ↦ rw (seek, e, a, b, c) refl
      ]
    ]
  ]
  | inr e ↦ rw (seek, e) refl
]

-- A file that a call has opened.
abbrev pub IsOpened : Option File × State → Type 0
IsOpened (none, s) = Unit
IsOpened (some f, s) = f.is_open ≡ true

give_up_open : (fuel new : ℕ) (s : State) → Each IsOpened (give_up fuel new s)
unfolding give_up Each
give_up_open fuel new s =
    Each-map (λ (t : State). Unit) IsOpened (λ s'. (none, s')) (λ t h. tt)
      (free_cluster_chain fuel new s) (any (free_cluster_chain fuel new s))

open_entry_open :
    (fuel flags new : ℕ) (o : Option (Option Place × State))
    → Each IsOpened (open_entry fuel flags new o)
unfolding open_entry Each opened
open_entry_open fuel flags new none = tt
open_entry_open fuel flags new (some (none, s)) = give_up_open fuel new s
open_entry_open fuel flags new (some (some p, s)) = refl

open_made_open :
    (fuel : ℕ) (path : List ℕ) (flags dir_cluster new : ℕ) (o : Option (Bool × State))
    → Each IsOpened (open_made fuel path flags dir_cluster new o)
unfolding open_made Each
open_made_open fuel path flags dir_cluster new none = tt
open_made_open fuel path flags dir_cluster new (some (false, s)) = give_up_open fuel new s
open_made_open fuel path flags dir_cluster new (some (true, s)) =
    open_entry_open fuel flags new (find_entry fuel dir_cluster path s)

open_new_open :
    (fuel : ℕ) (path : List ℕ) (flags : ℕ) (s : State) → Each IsOpened (open_new fuel path flags s)
unfolding open_new Each
open_new_open fuel path flags s =
    Each-if IsOpened ((alloc_cluster s).0 == 0) _ _ tt
      (open_made_open fuel path flags s.current_dir_cluster (alloc_cluster s).0 _)

open_found_open :
    (fuel : ℕ) (path : List ℕ) (flags : ℕ) (o : Option (Option Place × State))
    → Each IsOpened (open_found fuel path flags o)
unfolding open_found Each opened
open_found_open fuel path flags none = tt
open_found_open fuel path flags (some (none, s)) =
    Each-if IsOpened (bit flags 2) _ _ (open_new_open fuel path flags s) tt
open_found_open fuel path flags (some (some p, s)) =
    Each-map (λ (r : File × State). Unit) IsOpened _ (λ r h. refl)
      (truncate fuel flags (file_of p) s) (any (truncate fuel flags (file_of p) s))

-- A file that a call with the result 0 leaves.
abbrev pub OpensAt0 : ℤ × File × State → Type 0
OpensAt0 (result, f, s) = result ≡ pos 0 → f.is_open ≡ true

returned_open : (r : Option File × State) → IsOpened r → OpensAt0 (returned r)
unfolding returned
returned_open (none, s) h e = absurd (ground (arith, e))
returned_open (some f, s) h e = h

pub open_file_open :
    (fuel : ℕ) (path : List ℕ) (flags : ℕ) (s : State) → Each OpensAt0 (open_file fuel path flags s)
unfolding open_file
open_file_open fuel path flags s =
    Each-map IsOpened OpensAt0 returned returned_open _ (open_found_open fuel path flags _)
