-- ===== src/Net/Checksum.antt =====
-- What a receiver finds in a packet with the checksum of src/drivers/net/ip.c.
use mathlib.Core.Option
use quantum_kernel.Bytes.Laws.{read16-write16}
use quantum_kernel.Net.{sum_words, fold, checksum, complement}
use quantum_kernel.Bytes.{Bytes, read16, write16}
use quantum_kernel.Prelude.{
  u32, ℕ, zero, suc, ◌+◌, ◌*◌, ◌/◌, ◌%◌, ◌^◌, ◌≤◌, ◌<◌, ◌≡◌, refl, sym, ap, ◌∙◌, ◌⊎◌, inl, inr,
  false, some, arith, ◌==◌,
}

-- The sum without wrapping round.
unfoldable pub total : ℕ → Bytes → ℕ → ℕ
total zero b o = 0
total (suc zero) b o = b o
total (suc (suc n)) b o = read16 b o + total n b (o + 2)

sum_words_lem :
    (len : ℕ) (b : Bytes) (o sum : ℕ)
    → sum + total len b o < 2 ^ 32
    → sum_words len b o sum ≡ sum + total len b o
unfolding sum_words total
sum_words_lem zero b o sum h = omega arith
sum_words_lem (suc zero) b o sum h = omega arith
sum_words_lem (suc (suc n)) b o sum h =
    let e : u32 (sum + read16 b o) ≡ sum + read16 b o = omega arith in
    ap (sum_words n b (o + 2)) e
    ∙ sum_words_lem n b (o + 2) (sum + read16 b o) (omega arith)
    ∙ omega arith

total_above :
    (len : ℕ) (b : Bytes) (o p c : ℕ) → p + 2 ≤ o → total len (write16 b p c) o ≡ total len b o
unfolding total read16 write16
total_above zero b o p c h = refl
total_above (suc zero) b o p c h = ground arith
total_above (suc (suc n)) b o p c h =
    let rest = total_above n b (o + 2) p c (omega arith) in ground (arith, rest)

read16_apart : (b : Bytes) (o p c : ℕ) → o + 2 ≤ p → read16 (write16 b p c) o ≡ read16 b o
unfolding read16 write16
read16_apart b o p c h = ground arith

-- Storing `c` in a word that was 0 adds `c` to the sum.
total-write16 :
    (k len : ℕ) (b : Bytes) (o p c : ℕ)
    → p ≡ o + 2 * k
    → 2 * k + 2 ≤ len
    → read16 b p ≡ 0
    → c < 2 ^ 16
    → total len (write16 b p c) o ≡ total len b o + c
unfolding total
total-write16 k zero b o p c e h z w = absurd (omega arith)
total-write16 k (suc zero) b o p c e h z w = absurd (omega arith)
total-write16 zero (suc (suc n)) b o p c e h z w =
    let here : p ≡ o = omega arith in
    let now : read16 (write16 b p c) o ≡ c =
      ap (read16 (write16 b p c)) (sym here) ∙ read16-write16 b p c w in
    let old : read16 b o ≡ 0 = ap (read16 b) (sym here) ∙ z in
    let later = total_above n b (o + 2) p c (omega arith) in omega (arith, now, old, later)
total-write16 (suc k) (suc (suc n)) b o p c e h z w =
    let now = read16_apart b o p c (omega arith) in
    let later = total-write16 k n b (o + 2) p c (omega arith) (omega arith) z w in
    omega (arith, now, later)

-- One round of the folding loop.
folded : ℕ → ℕ
folded sum = sum % 0x10000 + sum / 0x10000

folded_lem :
    (sum : ℕ)
    → 0 < sum
    → sum < 2 ^ 32
    → (0 < folded sum) × (folded sum < 0x1ffff) × (folded sum % 0xffff ≡ sum % 0xffff)
unfolding folded
folded_lem sum some_bits fits = (omega arith, omega arith, omega arith)

-- The value that the folded sum has.
record IsFolded (sum f : ℕ) : Type 0 where
  ends : fold 3 sum ≡ some f
  some_bits : 0 < f
  word : f < 0x10000
  residue : f % 0xffff ≡ sum % 0xffff

fold_stop : (n sum : ℕ) → sum < 0x10000 → fold (suc n) sum ≡ some sum
unfolding fold
fold_stop n sum h = ground arith

fold_on : (n sum : ℕ) → 0x10000 ≤ sum → sum < 2 ^ 32 → fold (suc n) sum ≡ fold n (folded sum)
unfolding fold folded
fold_on n sum h k =
    let e : u32 (folded sum) ≡ folded sum = omega arith in
    let q : (sum / 0x10000 == 0) ≡ false = ground arith in simp q (ap (fold n) e)

-- A round changes nothing once the sum is a word.
folded_word : (sum : ℕ) → sum < 0x10000 → folded sum ≡ sum
unfolding folded
folded_word sum h = omega arith

lt-or-ge : (a b : ℕ) → (a < b) ⊎ (b ≤ a)
lt-or-ge a b = ground arith

twice : (sum : ℕ) → folded sum < 0x1ffff → folded (folded sum) < 0x10000
unfolding folded
twice sum h = omega arith

folds : (sum : ℕ) → sum < 2 ^ 32 → folded sum < 0x1ffff → fold 3 sum ≡ some (folded (folded sum))
folds sum fits near = elim (lt-or-ge sum 0x10000) [
  | inl small ↦
      let e = folded_word sum small in fold_stop 2 sum small ∙ ap some (sym (ap folded e ∙ e))
  | inr large ↦ fold_on 2 sum large fits ∙ elim (lt-or-ge (folded sum) 0x10000) [
    | inl small ↦ fold_stop 1 (folded sum) small ∙ ap some (sym (folded_word _ small))
    | inr again ↦
        fold_on 1 (folded sum) again (omega arith)
        ∙ fold_stop 0 (folded (folded sum)) (twice sum near)
  ]
]

fold_lem : (sum : ℕ) → 0 < sum → sum < 2 ^ 32 → IsFolded sum (folded (folded sum))
unfolding folded
fold_lem sum some_bits fits =
    let (a, b, c) = folded_lem sum some_bits fits in
    let (d, e, f) = folded_lem (folded sum) a (omega arith) in
    record { ends = folds sum fits b; some_bits = d; word = omega (arith, b); residue = f ∙ c }

checksum_lem :
    (b : Bytes) (len : ℕ)
    → 0 < total len b 0
    → total len b 0 < 2 ^ 32
    → checksum b len ≡ some (complement (folded (folded (total len b 0))))
unfolding checksum
checksum_lem b len some_bits fits =
    let f = fold_lem (total len b 0) some_bits fits in
    let e = sum_words_lem len b 0 0 (omega arith) ∙ omega arith in
    ap (λ s. Option.map complement (fold 3 s)) e ∙ ap (Option.map complement) f.ends

-- A word that is no zero and leaves no residue is all ones.
all_ones :
    (sum f g : ℕ)
    → f < 0x10000
    → 0 < g
    → g < 0x10000
    → f % 0xffff ≡ sum % 0xffff
    → g % 0xffff ≡ (sum + complement f) % 0xffff
    → g ≡ 0xffff
all_ones sum f g a b c e h = omega arith

-- For a packet of bytes whose word at the even offset `p` is 0 and whose sum is neither 0 nor wraps
-- round: `checksum` ends with a 16-bit value, and once that is stored at `p`, the packet's own
-- checksum is 0, which is what a receiver tests.
pub checksum-write16 :
    (b : Bytes) (len k : ℕ)
    → 2 * k + 2 ≤ len
    → read16 b (2 * k) ≡ 0
    → 0 < total len b 0
    → total len b 0 + 0xffff < 2 ^ 32
    → (c : ℕ) × (checksum b len ≡ some c)
      × (c < 2 ^ 16)
      × (checksum (write16 b (2 * k) c) len ≡ some 0)
checksum-write16 b len k inside blank some_bits fits =
    let sum = total len b 0 in
    let f = fold_lem sum some_bits (omega arith) in
    let c : ℕ = complement (folded (folded sum)) in
    let w : c < 2 ^ 16 = omega arith in
    let g = fold_lem (sum + c) (omega arith) (omega arith) in
    let full =
      all_ones sum (folded (folded sum)) (folded (folded (sum + c))) f.word g.some_bits g.word
        f.residue g.residue in
    let stored = total-write16 k len b 0 (2 * k) c (omega arith) inside blank w in
    (
      c,
      checksum_lem b len some_bits (omega arith),
      w,
      checksum_lem (write16 b (2 * k) c) len (rw stored (omega arith)) (rw stored (omega arith))
          ∙ ap (λ s. some (complement (folded (folded s)))) stored
          ∙ ap (λ s. some (complement s)) full,
    )
