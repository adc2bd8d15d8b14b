-- ===== src/Fat/Write/Loop.antt =====
-- The loop of `fat32_write` of src/fs/fat32.c, on a chain that has room for what is written.
use quantum_kernel.Fat.Cluster.Laws.{content}
use quantum_kernel.Fat.Table.{read_fat}
use quantum_kernel.Fat.Write.Round.{Stored, round_lem, filled, extend-next}
use quantum_kernel.Fat.Cluster.{write_cluster}
use quantum_kernel.Fat.Write.Apart.{
  NotIn, Distinct, Agree, stream-other, stream-written, Distinct-head, NotIn-tail,
}
use quantum_kernel.Fat.File.Chain.{stream, Links, Quiet, Quiet-content, Quiet-stream}
use quantum_kernel.Fat.Table.View.{Holds, InRange}
use quantum_kernel.Bytes.{Bytes}
use quantum_kernel.Prelude.{
  ltb, leb, if◌then◌else◌, lt→ltb, length, get_or, ℕ, suc, ◌+◌, ◌-◌, ◌*◌, ◌^◌, ◌≤◌, ◌<◌, min, ◌≡◌,
  refl, sym, ◌∙◌, inl, inr, true, ◌&&◌, some, List, ◌∷◌, arith,
}
use quantum_kernel.Fat.{State}
use quantum_kernel.Fat.Write.{Writing, to_copy, write_loop, count_bytes}

-- What the loop has done when it ends: all has been written, to the clusters of the chain only.
pub record WroteAll (s : State) (t : ℕ → ℕ) (cs : List ℕ) (buffer : Bytes) (w w' : Writing)
    (s' : State) : Type 0 where
  pub count : w'.bytes_written ≡ w.bytes_written + w.size
  pub moved : w'.position ≡ w.position + w.size
  pub grown : w'.file_size ≡ (
      if ltb 0 w.size && ltb w.file_size (w.position + w.size)
      then w.position + w.size
      else w.file_size)
  pub same_fs : s'.fs ≡ s.fs
  pub same_dir : s'.current_dir_cluster ≡ s.current_dir_cluster
  pub holds : Holds s' t
  pub bytes :
      (k : ℕ)
      → k < length cs * s.fs.bytes_per_cluster
      → stream s' cs k ≡ (
          if leb w.offset_in_cluster k && ltb k (w.offset_in_cluster + w.size)
          then buffer (w.bytes_written + (k - w.offset_in_cluster))
          else stream s cs k)
  pub other : (d : ℕ) → InRange s.fs d → NotIn d cs → Agree s s' d

-- What the loop needs to write all.
pub record CanWrite (s : State) (cs : List ℕ) (w : Writing) : Type 0 where
  pub inside : w.offset_in_cluster < s.fs.bytes_per_cluster
  pub enough : w.offset_in_cluster + w.size ≤ length cs * s.fs.bytes_per_cluster
  pub small : w.position + w.size < 2 ^ 32

pub record Result (fuel : ℕ) (s : State) (t : ℕ → ℕ) (cs : List ℕ) (buffer : Bytes) (w : Writing)
    : Type 0 where
  pub writing : Writing
  pub state : State
  pub ends : write_loop fuel buffer w s ≡ some (writing, state)
  pub all : WroteAll s t cs buffer w writing state

-- That the loop with this fuel writes all it is asked for.
abbrev pub Writes : ℕ → (ℕ → ℕ) → Bytes → Type 0
Writes fuel t buffer =
    (w : Writing) (s : State) (cs : List ℕ)
    → Holds s t
    → Links s.fs t w.cluster cs
    → Distinct cs
    → CanWrite s cs w
    → w.size < fuel
    → Result fuel s t cs buffer w

pub write_loop_end :
    (fuel : ℕ) (buffer : Bytes) (w : Writing) (s : State)
    → w.size ≡ 0
    → write_loop (suc fuel) buffer w s ≡ some (w, s)
unfolding write_loop
write_loop_end fuel buffer w s e = rw e

pub to_copy-min :
    (w : Writing) (s : State)
    → to_copy w s ≡ min w.size (s.fs.bytes_per_cluster - w.offset_in_cluster)
unfolding to_copy
to_copy-min w s = ground arith

module _ {s : State} {t : ℕ → ℕ} (h : Holds s t) (buffer : Bytes) (w : Writing)
    (r : InRange s.fs w.cluster) (fuel : ℕ) (some_left : 0 < w.size) where
  -- The state behind a round.
  abbrev behind : State
  behind = (write_cluster w.cluster (filled h w r buffer)).1

  abbrev counted : Writing
  counted = count_bytes (to_copy w s) w

  stored : Stored s t w.cluster w.offset_in_cluster (to_copy w s) w.bytes_written buffer behind
  stored = (round_lem h w r buffer).2

  pub round_last : counted.size ≡ 0 → write_loop (suc fuel) buffer w s ≡ some (counted, behind)
  unfolding write_loop
  round_last none_left =
      let (done, wrote, _) = round_lem h w r buffer in
      let test : (ltb 0 w.size && leb 2 w.cluster) ≡ true = ground arith in
      rw (test, done, wrote, none_left)

  pub round_more :
      0 < counted.size
      → InRange s.fs (t w.cluster)
      → write_loop (suc fuel) buffer w s
        ≡ write_loop fuel buffer
            (record counted { cluster = t w.cluster })
            (read_fat w.cluster behind).1
  unfolding write_loop count_bytes
  round_more more next =
      let (done, wrote, st) = round_lem h w r buffer in
      let test : (ltb 0 w.size && leb 2 w.cluster) ≡ true = ground arith in
      let to_next = extend-next st.holds w.cluster (rw st.same_fs r) (rw st.same_fs next) in
      rw (test, done, wrote, lt→ltb 0 (w.size - to_copy w s) more, to_next, to_next)

-- The rounds that follow one, or their absence, put together with it.
module _ {s : State} {t : ℕ → ℕ} (h : Holds s t) (buffer : Bytes) (w : Writing) (cs : List ℕ)
    (can : CanWrite s (w.cluster ∷ cs) w) (some_left : 0 < w.size) {behind : State}
    (st : Stored s t w.cluster w.offset_in_cluster (to_copy w s) w.bytes_written buffer behind)
    (apart : Distinct (w.cluster ∷ cs)) (range : InRange s.fs w.cluster) where
  pos_b : 0 < s.fs.bytes_per_cluster
  pos_b = omega (arith, can.inside)

  -- The rest of the chain is as it was.
  untouched :
      (k : ℕ)
      → ((i : ℕ) → i < length cs → InRange s.fs (get_or cs i 0))
      → k < length cs * s.fs.bytes_per_cluster
      → stream behind cs k ≡ stream s cs k
  untouched k ranges lt =
      stream-other s behind cs k st.same_fs pos_b
        (λ i hi j hj. st.other (get_or cs i 0) j (ranges i hi) (Distinct-head apart i hi) hj) lt

  pub WroteAll-last :
      ((i : ℕ) → i < length cs → InRange s.fs (get_or cs i 0))
      → w.size ≡ to_copy w s
      → WroteAll s t (w.cluster ∷ cs) buffer w (count_bytes (to_copy w s) w) behind
  unfolding count_bytes
  WroteAll-last ranges whole = record {
    count = omega arith;
    moved = ground (arith, can.small);
    grown = ground (arith, can.small);
    same_fs = st.same_fs;
    same_dir = st.same_dir;
    holds = st.holds;
    bytes = λ k lt.
        stream-written s behind w.cluster cs buffer w.offset_in_cluster (to_copy w s) 0
          w.bytes_written st.same_fs pos_b st.own (λ j hj. ground (arith, untouched j ranges hj))
          (inl refl) (omega (arith, can.inside, to_copy-min w s)) k lt
        ∙ ground (arith, whole);
    other = λ d rd away k hk. st.other d k rd (λ e. away 0 (omega arith) (sym e)) hk;
  }

  pub WroteAll-more :
      {u : State} {w' last : Writing}
      → ((i : ℕ) → i < length cs → InRange s.fs (get_or cs i 0))
      → Quiet behind u
      → w'.bytes_written ≡ w.bytes_written + to_copy w s
      → w'.size ≡ w.size - to_copy w s
      → w'.position ≡ w.position + to_copy w s
      → w'.file_size ≡ (
          if ltb w.file_size (w.position + to_copy w s)
          then w.position + to_copy w s
          else w.file_size)
      → w'.offset_in_cluster ≡ 0
      → w.offset_in_cluster + to_copy w s ≡ s.fs.bytes_per_cluster
      → to_copy w s < w.size
      → (final : State) → WroteAll u t cs buffer w' last final
      → WroteAll s t (w.cluster ∷ cs) buffer w last final
  WroteAll-more {u} {w'} ranges q count left moved grown start full more final rest =
      let same = q.same_fs ∙ st.same_fs in
      let same_end = rest.same_fs ∙ same in
      let first : (k : ℕ)
          → k < s.fs.bytes_per_cluster
          → content final w.cluster k ≡ content behind w.cluster k =
        λ k hk.
          rest.other w.cluster (rw same range) (Distinct-head apart) k (rw same hk)
          ∙ Quiet-content q w.cluster k in
      let later : (k : ℕ)
          → k < length cs * s.fs.bytes_per_cluster
          → stream final cs k ≡ (
              if ltb k w'.size then buffer (w.bytes_written + to_copy w s + k) else stream s cs k) =
        λ k hk.
          rest.bytes k (rw same hk)
          ∙ ground (arith, start, count, Quiet-stream q cs k, untouched k ranges hk) in
      record {
        count = ground (arith, rest.count);
        moved = ground (arith, rest.moved);
        grown = ground (arith, rest.grown);
        same_fs = same_end;
        same_dir = rest.same_dir ∙ q.same_dir ∙ st.same_dir;
        holds = rest.holds;
        bytes = λ k lt.
            stream-written s final w.cluster cs buffer w.offset_in_cluster (to_copy w s) w'.size
              w.bytes_written same_end pos_b (λ j hj. first j hj ∙ st.own j hj) later (inr full)
              (omega arith) k lt
            ∙ ground (arith, left);
        other = λ d rd away k hk.
            rest.other d (rw same rd) (NotIn-tail d w.cluster cs away) k (rw same hk)
            ∙ Quiet-content q d k
            ∙ st.other d k rd (λ e. away 0 (omega arith) (sym e)) hk;
      }
