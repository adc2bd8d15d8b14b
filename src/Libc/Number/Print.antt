-- ===== src/Libc/Number/Print.antt =====
-- The text that `itoa` of src/lib/libc.c leaves in memory.
use quantum_kernel.Libc.Number.Digits.{digits}
use quantum_kernel.Libc.Number.{put_digits, turn_round, digit_char}
use quantum_kernel.Prelude.{
  leb, if◌then◌else◌, lt→ltb, le→ltb, Bool-cases, length, get_or, ℕ, zero, suc, ◌+◌, ◌-◌, ◌*◌, ◌/◌,
  ◌%◌, ◌≤◌, ◌<◌, ◌≡◌, refl, sym, ap, ◌∙◌, ◌≢◌, ◌⊎◌, inl, inr, ◌&&◌, some, List, ◌∷◌, arith, ◌==◌,
}
use quantum_kernel.Bytes.{Bytes, write8}

-- `m` has the bytes `xs` from `p` on.
unfoldable pub Stands : Bytes → ℕ → List ℕ → Type 0
Stands m p xs = (i : ℕ) → i < length xs → m (p + i) ≡ get_or xs i 0

Stands-cons :
    (m : Bytes) (p x : ℕ) (xs : List ℕ) → m p ≡ x → Stands m (p + 1) xs → Stands m p (x ∷ xs)
unfolding Stands
Stands-cons m p x xs here later zero l = let e : p + 0 ≡ p = omega arith in ap m e ∙ here
Stands-cons m p x xs here later (suc i) l =
    let e : p + suc i ≡ p + 1 + i = omega arith in ap m e ∙ later i (omega arith)

pub put_digits_lem :
    (fuel n p : ℕ) (m : Bytes)
    → n < fuel
    → (m' : Bytes) × (put_digits fuel n 10 p m ≡ some (p + length (digits fuel n), m'))
      × Stands m' p (digits fuel n)
      × ((k : ℕ) → (k < p) ⊎ (p + length (digits fuel n) ≤ k) → m' k ≡ m k)
      × (((a : ℕ) → m a < 256) → (a : ℕ) → m' a < 256)
unfolding put_digits digits Stands write8
put_digits_lem zero n p m h = absurd (omega arith)
put_digits_lem (suc fuel) n p m h = elim (Bool-cases (n == 0)) [
  | inl z ↦
      let e : p ≡ p + 0 = omega arith in
      rw z (m, ap (λ q. some (q, m)) e, (λ i l. absurd (omega arith)), (λ k out. refl), (λ s. s))
  | inr z ↦
      let m1 : Bytes = write8 m p (digit_char (n - n / 10 * 10)) in
      let (m', runs, stands, kept, small) =
        put_digits_lem fuel (n / 10) (p + 1) m1 (ground arith) in
      let e : p + 1 + length (digits fuel (n / 10)) ≡ p + suc (length (digits fuel (n / 10))) =
        omega arith in
      let first_digit : m' p ≡ b'0' + n % 10 = kept p (inl (omega arith)) ∙ ground arith in
      rw z (
        m',
        runs ∙ ap (λ q. some (q, m')) e,
        Stands-cons m' p (b'0' + n % 10) (digits fuel (n / 10)) first_digit stands,
        (λ k out. kept k (ground (arith, e)) ∙ ground arith),
        (λ s. small (λ a. ground (arith, s a))),
      )
]

-- The two bytes that a round exchanges.
swap : ℕ → ℕ → Bytes → Bytes
swap lo hi m = write8 (write8 m hi (m lo)) lo (m hi)

module _ (lo hi : ℕ) (m : Bytes) (small : (a : ℕ) → m a < 256) where
  swap_small : (a : ℕ) → swap lo hi m a < 256
  unfolding swap write8
  swap_small a = ground (arith, small lo, small hi, small a)

  swap_lo : swap lo hi m lo ≡ m hi
  unfolding swap write8
  swap_lo = ground (arith, small lo, small hi)

  swap_hi : swap lo hi m hi ≡ m lo
  unfolding swap write8
  swap_hi = ground (arith, small lo, small hi)

  swap_other : (k : ℕ) → k ≢ lo → k ≢ hi → swap lo hi m k ≡ m k
  unfolding swap write8
  swap_other k a b = ground arith

-- `m` turned round between `lo` and `hi`.
pub turned : ℕ → ℕ → Bytes → Bytes
turned lo hi m k = if leb lo k && leb k hi then m (lo + hi - k) else m k

pub turned_in :
    (lo hi k j : ℕ) (m : Bytes) → lo ≤ k → k ≤ hi → j ≡ lo + hi - k → turned lo hi m k ≡ m j
unfolding turned
turned_in lo hi k j m a b e = rw (sym e) (ground arith)

pub turned_out : (lo hi k : ℕ) (m : Bytes) → (k < lo) ⊎ (hi < k) → turned lo hi m k ≡ m k
unfolding turned
turned_out lo hi k m out = ground arith

pub lt-or-ge : (a b : ℕ) → (a < b) ⊎ (b ≤ a)
lt-or-ge a b = ground arith

turned-swap :
    (lo hi k : ℕ) (m : Bytes)
    → ((a : ℕ) → m a < 256)
    → lo < hi
    → turned (lo + 1) (hi - 1) (swap lo hi m) k ≡ turned lo hi m k
turned-swap lo hi k m small h = elim (lt-or-ge k lo) [
  | inl before ↦
      turned_out (lo + 1) (hi - 1) k (swap lo hi m) (inl (omega arith))
      ∙ swap_other lo hi m small k (omega arith) (omega arith)
      ∙ sym (turned_out lo hi k m (inl before))
  | inr from ↦ elim (lt-or-ge hi k) [
    | inl behind ↦
        turned_out (lo + 1) (hi - 1) k (swap lo hi m) (inr (omega arith))
        ∙ swap_other lo hi m small k (omega arith) (omega arith)
        ∙ sym (turned_out lo hi k m (inr behind))
    | inr upto ↦ elim (lt-or-ge lo k) [
      | inr at_lo ↦
          let e : k ≡ lo = omega arith in
          turned_out (lo + 1) (hi - 1) k (swap lo hi m) (inl (omega arith))
          ∙ ap (swap lo hi m) e
          ∙ swap_lo lo hi m small
          ∙ sym (turned_in lo hi k hi m from upto (omega arith))
      | inl above ↦ elim (lt-or-ge k hi) [
        | inr at_hi ↦
            let e : k ≡ hi = omega arith in
            turned_out (lo + 1) (hi - 1) k (swap lo hi m) (inr (omega arith))
            ∙ ap (swap lo hi m) e
            ∙ swap_hi lo hi m small
            ∙ sym (turned_in lo hi k lo m from upto (omega arith))
        | inl below ↦
            turned_in (lo + 1) (hi - 1) k (lo + hi - k) (swap lo hi m) (omega arith) (omega arith)
              (omega arith)
            ∙ swap_other lo hi m small (lo + hi - k) (omega arith) (omega arith)
            ∙ sym (turned_in lo hi k (lo + hi - k) m from upto refl)
      ]
    ]
  ]
]

turned_short : (lo hi k : ℕ) (m : Bytes) → hi ≤ lo → turned lo hi m k ≡ m k
unfolding turned
turned_short lo hi k m h = elim (lt-or-ge hi k) [
  | inl out ↦ turned_out lo hi k m (inr out)
  | inr upto ↦ elim (lt-or-ge k lo) [
    | inl out ↦ turned_out lo hi k m (inl out)
    | inr from ↦ turned_in lo hi k k m from upto (omega arith)
  ]
]

pub turn_round_lem :
    (fuel lo hi : ℕ) (m : Bytes)
    → ((a : ℕ) → m a < 256)
    → hi + 1 < lo + 2 * fuel
    → 0 < fuel
    → (m' : Bytes) × (turn_round fuel lo hi m ≡ some m') × ((k : ℕ) → m' k ≡ turned lo hi m k)
unfolding turn_round swap
turn_round_lem zero lo hi m small enough some_fuel = absurd (omega arith)
turn_round_lem (suc fuel) lo hi m small enough some_fuel = elim (lt-or-ge lo hi) [
  | inl more ↦
      let (m', runs, result) =
        turn_round_lem fuel (lo + 1) (hi - 1) (swap lo hi m) (swap_small lo hi m small)
          (omega arith) (omega arith) in
      rw (lt→ltb lo hi more) (m', runs, (λ k. result k ∙ turned-swap lo hi k m small more))
  | inr done ↦ rw (le→ltb lo hi done) (m, refl, (λ k. sym (turned_short lo hi k m done)))
]
