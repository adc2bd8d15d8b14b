-- ===== src/Fat/Format/Fills.antt =====
-- Runs of transfers of `fat32_format` in src/fs/fat32.c, by the sectors that they fill.
use quantum_kernel.Prelude.{
  if◌then◌else◌, Bool-cases, get_or, ℕ, suc, ◌+◌, ◌%◌, ◌^◌, ◌≤◌, ◌<◌, ◌≡◌, ◌⊎◌, refl, sym, ap, ◌∙◌,
  inl, inr, Bool, true, false, arith, ◌==◌,
}
use mathlib.Core.Path.{subst}
use quantum_kernel.Disk
use quantum_kernel.Bytes.{Bytes, store_list, fill}
use quantum_kernel.Fat.{State, write_sector}
use quantum_kernel.Fat.Format.{table_sector, first_entries}

-- A run that has written the `n` sectors from `first` on, and no other.
pub record Fills (first n : ℕ) (content old : ℕ → Bytes) (r : Bool × State) : Type 0 where
  pub done : r.0 ≡ true
  pub reliable : Disk.IsReliable r.1.disk
  pub inside : (a p : ℕ) → first ≤ a → a < first + n → p < 512 → r.1.disk.sectors a p ≡ content a p
  pub outside : (a : ℕ) → (a < first) ⊎ (first + n ≤ a) → r.1.disk.sectors a ≡ old a

pub write_reliable :
    (lba : ℕ) (s : State)
    → Disk.IsReliable s.disk
    → write_sector lba s ≡ (
      true,
      record s {
        disk = record (Disk.tick s.disk) {
          sectors = λ a. if a == lba % 2 ^ 28 then s.sector_buffer else s.disk.sectors a;
        };
      },
    )
unfolding write_sector
write_reliable lba s r = rw (r s.disk.clock, write_sector) refl

-- One transfer.
pub write-Fills :
    (a b : ℕ) (content : ℕ → Bytes) (t : State)
    → b ≡ a
    → a < 2 ^ 28
    → Disk.IsReliable t.disk
    → ((p : ℕ) → p < 512 → t.sector_buffer p ≡ content a p)
    → Fills a 1 content t.disk.sectors (write_sector b t)
write-Fills a b content t e small r same =
    let at : (a == b % 2 ^ 28) ≡ true = ground arith in
    subst (Fills a 1 content t.disk.sectors) (sym (write_reliable b t r)) (record {
      done = refl;
      reliable = r;
      inside = λ x p lo hi lt. let here : x ≡ a = omega arith in rw (here, at) (same p lt);
      outside = λ x out. let there : (x == b % 2 ^ 28) ≡ false = ground arith in rw there refl;
    })

pub write-buffer :
    (b : ℕ) (t : State)
    → Disk.IsReliable t.disk
    → (write_sector b t).1.sector_buffer ≡ t.sector_buffer
write-buffer b t r = ap (λ (x : Bool × State). x.1.sector_buffer) (write_reliable b t r)

pub write-stored :
    (b : ℕ) (t : State)
    → Disk.IsReliable t.disk
    → b < 2 ^ 28
    → (write_sector b t).1.disk.sectors b ≡ t.sector_buffer
write-stored b t r small =
    let at : (b == b % 2 ^ 28) ≡ true = ground arith in
    ap (λ (x : Bool × State). x.1.disk.sectors b) (write_reliable b t r) ∙ rw at refl

-- One sector after another.
pub Fills-then :
    (a b n : ℕ) (content old : ℕ → Bytes) (q r : Bool × State)
    → b ≡ a + 1
    → Fills a 1 content old q
    → Fills b n content q.1.disk.sectors r
    → Fills a (suc n) content old r
Fills-then a b n content old q r e f g = record {
  done = g.done;
  reliable = g.reliable;
  inside = λ x p lo hi lt. elim (Bool-cases (x == a)) [
    | inl here ↦
        ap (λ (w : Bytes). w p) (g.outside x (inl (ground (arith, here))))
        ∙ f.inside x p lo (ground (arith, here)) lt
    | inr later ↦ g.inside x p (ground (arith, later)) (omega arith) lt
  ];
  outside = λ x out. g.outside x (omega arith) ∙ f.outside x (omega arith);
}

-- The sectors of a new copy of the table.
abbrev pub new_table : ℕ → ℕ → Bytes
new_table lba a p = if a == lba then get_or first_entries p 0 else 0

abbrev pub no_entries : ℕ → Bytes
no_entries a p = 0

-- What the sector buffer holds behind the first entries before each round.
abbrev pub IsBlankBehind : State → Type 0
IsBlankBehind t = (p : ℕ) → 12 ≤ p → p < 512 → t.sector_buffer p ≡ 0

past_entries : (p : ℕ) → 12 ≤ p → get_or first_entries p 0 ≡ 0
past_entries p h = ground arith

table_sector_first :
    (t : State) (p : ℕ)
    → IsBlankBehind t
    → p < 512
    → (table_sector 0 t).sector_buffer p ≡ get_or first_entries p 0
unfolding table_sector store_list
table_sector_first t p h lt = ground (arith, h p, past_entries p)

table_sector_later :
    (i : ℕ) (t : State) (p : ℕ)
    → (i == 0) ≡ false
    → p < 512
    → (table_sector i t).sector_buffer p ≡ 0
unfolding table_sector fill
table_sector_later i t p other lt = ground (arith, other)

pub table_sector_lem :
    (lba i : ℕ) (t : State)
    → IsBlankBehind t
    → (p : ℕ) → p < 512
    → (table_sector i t).sector_buffer p ≡ new_table lba (lba + i) p
table_sector_lem lba i t h p lt = elim (Bool-cases (i == 0)) [
  | inl first ↦
      let zeroth : i ≡ 0 = ground (arith, first) in
      let same : (lba + 0 == lba) ≡ true = ground arith in
      rw (zeroth, same) (table_sector_first t p h lt)
  | inr other ↦
      let apart : (lba + i == lba) ≡ false = ground (arith, other) in
      rw apart (table_sector_later i t p other lt)
]

pub new_table_behind : (lba a p : ℕ) → 12 ≤ p → new_table lba a p ≡ 0
new_table_behind lba a p h = ground (arith, past_entries p h)

pub table_sector_disk : (i : ℕ) (t : State) → (table_sector i t).disk ≡ t.disk
unfolding table_sector
table_sector_disk i t = elim (Bool-cases (i == 0)) [
  | inl first ↦ rw first refl
  | inr other ↦ rw other refl
]
