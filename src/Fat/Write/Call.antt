-- ===== src/Fat/Write/Call.antt =====
-- A whole `fat32_write` of src/fs/fat32.c to a file whose chain has room for what is written.
use quantum_kernel.Fat.File.Reads.Call.{stream-drop}
use quantum_kernel.Fat.Write.All.{write_loop_lem}
use quantum_kernel.Fat.Write.Round.{extend-next}
use quantum_kernel.Fat.Write.Apart.{
  Distinct, NotIn, Agree, Distinct-drop, Links-at, Distinct-before, Agree-stream, NotIn-drop,
}
use quantum_kernel.Bytes.{Bytes}
use quantum_kernel.Fat.File.Chain.{
  Links, Quiet, stream, last, Quiet-refl, link, read_fat-Quiet, Quiet-Holds, Quiet-Links,
  Links-InRange, Quiet-trans, Quiet-content, Quiet-stream,
}
use quantum_kernel.Fat.File.{File}
use quantum_kernel.Fat.Table.View.{Holds, InRange}
use quantum_kernel.Prelude.{
  sub-mul, length-drop, le→leb, to_int, ltb, leb, if◌then◌else◌, Bool-cases, length, get_or, drop,
  ℕ, zero, suc, ◌+◌, ◌-◌, ◌*◌, ◌/◌, ◌%◌, ◌^◌, ◌≤◌, ◌<◌, max, ◌≡◌, refl, sym, ap, ◌∙◌, inl, inr,
  true, false, ◌&&◌, some, List, arith, ◌==◌,
}
use mathlib.Core.Path.{subst}
use mathlib.Core.Option
use native.Mathlib.Nat.{div-lt_iff_lt-mul, div-add-mod', mod-lt, mul-le-mul_right}
use quantum_kernel.Fat.{Fs, State}
use quantum_kernel.Fat.Write.{
  Writing, WriteResult, write, write_open, write_chain, write_loop, skip_or_extend, start_writing,
  finish_writing,
}
use quantum_kernel.Fat.Write.Loop.{Result, WroteAll}

-- The walk of a write over `n` clusters of the chain ends at its cluster `n`, and extends nothing.
skip_or_extend_lem :
    (n : ℕ) {c : ℕ} {cs : List ℕ} {s : State} {t : ℕ → ℕ}
    → Holds s t
    → Links s.fs t c cs
    → n < length cs
    → ((skip_or_extend n c s).0 ≡ some (get_or cs n 0))
      × Links s.fs t (get_or cs n 0) (drop n cs)
      × Quiet s (skip_or_extend n c s).1
unfolding skip_or_extend
skip_or_extend_lem zero h (last r) lt = (refl, last r, Quiet-refl _)
skip_or_extend_lem zero h (link r l) lt = (refl, link r l, Quiet-refl _)
skip_or_extend_lem (suc n) h (last r) lt = absurd (omega arith)
skip_or_extend_lem (suc n) {c} {s} {t} h (link {cs} r l) lt =
    let q = read_fat-Quiet h c r in
    let (found, links, q') =
      skip_or_extend_lem n {c = t c} {cs = cs} (Quiet-Holds q h) (Quiet-Links q l) (omega arith) in
    let next = extend-next h c r (Links-InRange l) in
    rw (next, next, le→leb 2 c r.0)
      (found, subst (λ f. Links f t (get_or cs n 0) (drop n cs)) q.same_fs links, Quiet-trans q q')

-- What `fat32_write` returns for an open file, in terms of the bytes of its chain.
pub record WritesFile (f : File) (buffer : Bytes) (size : ℕ) (cs : List ℕ) (s : State) (t : ℕ → ℕ)
    (o : WriteResult) : Type 0 where
  pub result : o.result ≡ to_int size
  pub position : o.file.position ≡ f.position + size
  pub grown : o.file.file_size ≡ max f.file_size (f.position + size)
  pub same_first : o.file.first_cluster ≡ f.first_cluster
  pub still_open : o.file.is_open ≡ f.is_open
  pub same_fs : o.state.fs ≡ s.fs
  pub same_dir : o.state.current_dir_cluster ≡ s.current_dir_cluster
  pub holds : Holds o.state t
  pub bytes :
      (k : ℕ)
      → k < length cs * s.fs.bytes_per_cluster
      → stream o.state cs k ≡ (
          if leb f.position k && ltb k (f.position + size)
          then buffer (k - f.position)
          else stream s cs k)
  pub other : (d : ℕ) → InRange s.fs d → NotIn d cs → Agree s o.state d

-- The clusters before the position are skipped, and the loop writes to those that follow.
module _ (f : File) (buffer : Bytes) (size : ℕ) (s : State) {t : ℕ → ℕ} (cs : List ℕ)
    (h : Holds s t) (links : Links s.fs t f.first_cluster cs) (apart : Distinct cs)
    (some_left : 0 < size) (enough : f.position + size ≤ length cs * s.fs.bytes_per_cluster)
    (small : f.position + size < 2 ^ 32) where
  abbrev index : ℕ
  index = f.position / s.fs.bytes_per_cluster

  abbrev at : ℕ
  at = get_or cs index 0

  abbrev first_round : Writing
  first_round = start_writing f size at s.fs.bytes_per_cluster

  bytes-pos : 0 < s.fs.bytes_per_cluster
  bytes-pos = omega (arith, h.mounted.cluster_bytes, h.mounted.has_sector)

  index-lt : index < length cs
  index-lt = (div-lt_iff_lt-mul bytes-pos).1 (omega arith)

  position-eq : index * s.fs.bytes_per_cluster + f.position % s.fs.bytes_per_cluster ≡ f.position
  position-eq = div-add-mod' f.position s.fs.bytes_per_cluster

  abbrev walked : State
  walked = (skip_or_extend index f.first_cluster s).1

  walked-Quiet : Quiet s walked
  walked-Quiet = (skip_or_extend_lem index h links index-lt).2

  loop_writes : Result (size + 1) walked t (drop index cs) buffer first_round
  unfolding start_writing
  loop_writes =
      let (found, links', q) = skip_or_extend_lem index h links index-lt in
      write_loop_lem (size + 1) t buffer _ _ _ (Quiet-Holds q h) (Quiet-Links q links')
        (Distinct-drop index apart)
        (record {
          inside = rw q.same_fs (mod-lt _ bytes-pos);
          enough =
              rw (q.same_fs, length-drop index cs, sub-mul (length cs) index s.fs.bytes_per_cluster)
                (omega (arith, position-eq, enough));
          small = small;
        })
        (omega arith)

  -- The clusters behind the position, seen from the one that holds it.
  from_index :
      (u : State) (j : ℕ)
      → u.fs ≡ s.fs
      → stream u (drop index cs) j ≡ stream u cs (index * s.fs.bytes_per_cluster + j)
  from_index u j same =
      stream-drop u index j cs (rw same bytes-pos)
      ∙ ap (λ (x : Fs). stream u cs (index * x.bytes_per_cluster + j)) same

  write_chain_eq :
      write_chain f buffer size s
      ≡ finish_writing
          (record f { current_cluster = at })
          (write_loop (size + 1) buffer first_round walked)
  unfolding write_chain
  write_chain_eq = rw (write_chain, (skip_or_extend_lem index h links index-lt).0)

  write_eq :
      f.is_open ≡ true
      → 2 ≤ f.first_cluster
      → write (some f) (some buffer) size s
        ≡ Option.map inr (
            finish_writing
              (record f { current_cluster = at })
              (write_loop (size + 1) buffer first_round walked))
  unfolding write write_open
  write_eq opened first =
      let begun : (f.first_cluster == 0) ≡ false = ground arith in
      simp (opened, begun, write_chain_eq)

  -- The bytes of the whole chain, from those of the clusters from the position's on.
  bytes_lem :
      {w : Writing} {u : State}
      → WroteAll walked t (drop index cs) buffer first_round w u
      → (k : ℕ) → k < length cs * s.fs.bytes_per_cluster
      → stream u cs k ≡ (
          if leb f.position k && ltb k (f.position + size)
          then buffer (k - f.position)
          else stream s cs k)
  unfolding start_writing
  bytes_lem {u} all k lt =
      let b = s.fs.bytes_per_cluster in
      let q = walked-Quiet in
      let same : u.fs ≡ s.fs = all.same_fs ∙ q.same_fs in
      let in_list : k / b < length cs = (div-lt_iff_lt-mul bytes-pos).1 lt in
      let k-eq : k / b * b + k % b ≡ k = div-add-mod' k b in
      elim (Bool-cases (ltb (k / b) index)) [
        | inl before ↦
            let d = get_or cs (k / b) 0 in
            let kept : Agree s u d = λ j hj.
              all.other d (rw q.same_fs (Links-at (k / b) links in_list))
                (Distinct-before index (k / b) apart (ground arith) in_list) j (rw q.same_fs hj)
              ∙ Quiet-content q d j in
            let le : (k / b + 1) * b ≤ index * b = mul-le-mul_right b (ground arith) in
            let early : k < f.position = omega (arith, position-eq, mod-lt k bytes-pos) in
            Agree-stream s u cs k same bytes-pos kept ∙ ground arith
        | inr behind ↦
            let le : index * b ≤ k / b * b = mul-le-mul_right b (ground arith) in
            let j = k - index * b in
            let at_j : index * b + j ≡ k = omega arith in
            let room : j < length (drop index cs) * walked.fs.bytes_per_cluster =
              rw (q.same_fs, length-drop index cs, sub-mul (length cs) index b) (omega arith) in
            let before_write : stream walked (drop index cs) j ≡ stream s cs k =
              Quiet-stream q (drop index cs) j ∙ from_index s j refl ∙ ap (stream s cs) at_j in
            ap (stream u cs) (sym at_j)
            ∙ sym (from_index u j same)
            ∙ all.bytes j room
            ∙ ground (arith, before_write, position-eq)
      ]

-- `fat32_write` of at least one byte to an open file on a mounted volume whose disk does not fail,
-- where position and size do not pass 2 ^ 32 and the clusters of the chain, pairwise different, have
-- room for the bytes: it ends, returns the size, moves the position behind the bytes and the file's
-- size up to it. The chain then holds the caller's bytes from the old position on and its old bytes
-- elsewhere; other clusters, the table and `g_fs` are as they were.
pub write_lem :
    (f : File) (buffer : Bytes) (size : ℕ) (s : State) (t : ℕ → ℕ) (cs : List ℕ)
    → Holds s t
    → f.is_open ≡ true
    → Links s.fs t f.first_cluster cs
    → Distinct cs
    → 0 < size
    → f.position + size ≤ length cs * s.fs.bytes_per_cluster
    → f.position + size < 2 ^ 32
    → (o : WriteResult) × (write (some f) (some buffer) size s ≡ some (inr o))
      × WritesFile f buffer size cs s t o
unfolding finish_writing start_writing
write_lem f buffer size s t cs h opened links apart some_left enough small =
    let loop = loop_writes f buffer size s cs h links apart some_left enough small in
    let all = loop.all in
    let q = walked-Quiet f buffer size s cs h links apart some_left enough small in
    let f' = record f { current_cluster = get_or cs (f.position / s.fs.bytes_per_cluster) 0 } in
    (
      record {
        result = to_int loop.writing.bytes_written;
        file = record f' { position = loop.writing.position; file_size = loop.writing.file_size };
        state = loop.state;
      },
      write_eq f buffer size s cs h links apart some_left enough small opened
            (Links-InRange links).0
          ∙ ap (λ o. Option.map inr (finish_writing f' o)) loop.ends,
      record {
        result = ap to_int (omega (arith, all.count));
        position = all.moved;
        grown = ground (arith, all.grown);
        same_first = refl;
        still_open = refl;
        same_fs = all.same_fs ∙ q.same_fs;
        same_dir = all.same_dir ∙ q.same_dir;
        holds = all.holds;
        bytes = bytes_lem f buffer size s cs h links apart some_left enough small all;
        other = λ d rd away k hk.
            all.other d (rw q.same_fs rd)
              (NotIn-drop (f.position / s.fs.bytes_per_cluster) cs d away) k (rw q.same_fs hk)
            ∙ Quiet-content q d k;
      },
    )
