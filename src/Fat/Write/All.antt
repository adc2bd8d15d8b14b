-- ===== src/Fat/Write/All.antt =====
-- All rounds of the loop of `fat32_write` of src/fs/fat32.c.
use quantum_kernel.Fat.Table.{read_fat}
use quantum_kernel.Fat.Cluster.{write_cluster}
use quantum_kernel.Fat.Write.Round.{round_lem, filled}
use quantum_kernel.Fat.Write.Apart.{Distinct, Links-at, Distinct-tail}
use quantum_kernel.Fat.File.Reads.Loop.{open_links}
use quantum_kernel.Fat.File.Chain.{Links, Links-InRange, read_fat-Quiet, Quiet-Holds}
use quantum_kernel.Fat.Table.View.{Holds, InRange}
use quantum_kernel.Bytes.{Bytes}
use quantum_kernel.Prelude.{
  leb, Bool-cases, length, get_or, ℕ, zero, suc, ◌+◌, ◌-◌, ◌≤◌, ◌<◌, ◌≡◌, refl, sym, ap, ◌∙◌, inl,
  inr, List, ◌∷◌, arith, ◌==◌,
}
use mathlib.Core.Path.{subst}
use quantum_kernel.Fat.{State}
use quantum_kernel.Fat.Write.{Writing, count_bytes, to_copy}
use quantum_kernel.Fat.Write.Loop.{
  Result, Writes, write_loop_end, CanWrite, to_copy-min, round_last, WroteAll-last, round_more,
  WroteAll-more,
}

module _ {fuel : ℕ} {t : ℕ → ℕ} {buffer : Bytes} (writes : Writes fuel t buffer) {s : State}
    (h : Holds s t) (w : Writing) (cs : List ℕ) (links : Links s.fs t w.cluster (w.cluster ∷ cs))
    (apart : Distinct (w.cluster ∷ cs)) (can : CanWrite s (w.cluster ∷ cs) w)
    (enough : w.size < suc fuel) (some_left : 0 < w.size) where
  rest-InRange : (i : ℕ) → i < length cs → InRange s.fs (get_or cs i 0)
  rest-InRange i hi = Links-at (suc i) links (omega arith)

  -- The last round.
  write_last :
      w.size ≤ s.fs.bytes_per_cluster - w.offset_in_cluster
      → Result (suc fuel) s t (w.cluster ∷ cs) buffer w
  unfolding count_bytes
  write_last fits =
      let range = Links-InRange links in
      let whole : w.size ≡ to_copy w s = omega (arith, to_copy-min w s) in
      let st = (round_lem h w range buffer).2 in
      record {
        writing = count_bytes (to_copy w s) w;
        state = (write_cluster w.cluster (filled h w range buffer)).1;
        ends = round_last h buffer w range fuel some_left (omega arith);
        all = WroteAll-last h buffer w cs can some_left st apart range rest-InRange whole;
      }

  -- A round that another follows, on the next cluster of the chain.
  write_more :
      Links s.fs t (t w.cluster) cs
      → s.fs.bytes_per_cluster - w.offset_in_cluster < w.size
      → Result (suc fuel) s t (w.cluster ∷ cs) buffer w
  unfolding count_bytes
  write_more links' full =
      let range = Links-InRange links in
      let n : to_copy w s ≡ s.fs.bytes_per_cluster - w.offset_in_cluster =
        omega (arith, to_copy-min w s) in
      let st = (round_lem h w range buffer).2 in
      let behind = (write_cluster w.cluster (filled h w range buffer)).1 in
      let range1 : InRange behind.fs w.cluster = rw st.same_fs range in
      let q = read_fat-Quiet st.holds w.cluster range1 in
      let u = (read_fat w.cluster behind).1 in
      let w' = record (count_bytes (to_copy w s) w) { cluster = t w.cluster } in
      let same : u.fs ≡ s.fs = q.same_fs ∙ st.same_fs in
      let moved : w'.position ≡ w.position + to_copy w s = ground (arith, can.small) in
      let rest =
        writes w' u cs (Quiet-Holds q st.holds)
          (subst (λ f. Links f t (t w.cluster) cs) (sym same) links') (Distinct-tail apart)
          (record {
            inside = rw same (omega (arith, can.inside));
            enough = rw same (ground (arith, can.enough));
            small = ground (arith, can.small);
          })
          (omega (arith, can.inside)) in
      record {
        writing = rest.writing;
        state = rest.state;
        ends =
            round_more h buffer w range fuel some_left (omega arith) (Links-InRange links')
            ∙ rest.ends;
        all =
            WroteAll-more h buffer w cs can some_left st apart range rest-InRange q refl refl moved
              (ground (arith, moved)) refl (omega (arith, can.inside)) (omega arith) rest.state
              rest.all;
      }

-- Fuel above the size is enough, and the chain holds the caller's bytes.
pub write_loop_lem : (fuel : ℕ) (t : ℕ → ℕ) (buffer : Bytes) → Writes fuel t buffer
write_loop_lem zero t buffer w s cs h links apart can enough = absurd (omega arith)
write_loop_lem (suc fuel) t buffer w s cs h links apart can enough =
    elim (Bool-cases (w.size == 0)) [
      | inl e ↦
          let none_left : w.size ≡ 0 = ground arith in
          record {
            writing = w;
            state = s;
            ends = write_loop_end fuel buffer w s none_left;
            all = record {
              count = omega arith;
              moved = omega arith;
              grown = ground (arith, none_left);
              same_fs = refl;
              same_dir = refl;
              holds = h;
              bytes = λ k lt. ground (arith, none_left);
              other = λ d rd away k hk. refl;
            };
          }
      | inr e ↦
          let o = open_links links in
          let can' = subst (λ (l : List ℕ). CanWrite s l w) o.split can in
          let links' = subst (λ l. Links s.fs t w.cluster l) o.split links in
          let apart' = subst Distinct o.split apart in
          let some_left : 0 < w.size = ground arith in
          let writes = write_loop_lem fuel t buffer in
          subst (λ (l : List ℕ). Result (suc fuel) s t l buffer w) (sym o.split)
            (elim (Bool-cases (leb w.size (s.fs.bytes_per_cluster - w.offset_in_cluster))) [
              | inl fits ↦
                  write_last writes h w o.rest links' apart' can' enough some_left (ground arith)
              | inr full ↦
                  write_more writes h w o.rest links' apart' can' enough some_left
                    (elim o.goes_on [
                      | inl over ↦
                          absurd (ground (arith, can'.enough, can'.inside, over, ap length over))
                      | inr more ↦ more
                    ])
                    (ground arith)
            ])
    ]
