-- ===== src/Libc/Number/Digits.antt =====
-- The digits of a number, and `atoi` of src/lib/libc.c on them.
use quantum_kernel.Libc.Number.{number, atoi, signed, negate, skip_spaces, katoi, skip_blanks}
use quantum_kernel.Prelude.{
  to_int, if◌then◌else◌, u32, Bool-cases, pos, negsuc, ℕ, zero, suc, ◌+◌, ◌-◌, ◌*◌, ◌/◌, ◌%◌, ◌^◌,
  ◌≤◌, ◌<◌, ◌≡◌, refl, ap, ◌∙◌, ◌≢◌, inl, inr, List, [], ◌∷◌, arith, ◌==◌,
}

-- The digits from the last to the first.
unfoldable pub digits : ℕ → ℕ → List ℕ
digits zero n = []
digits (suc fuel) n =
    let rest = digits fuel (n / 10) in if n == 0 then [] else (b'0' + n % 10) ∷ rest

unfoldable pub reverse_onto : List ℕ → List ℕ → List ℕ
reverse_onto [] acc = acc
reverse_onto (x ∷ xs) acc = reverse_onto xs (x ∷ acc)

number-digits :
    (fuel n : ℕ) (acc : List ℕ)
    → n < fuel
    → n < 2 ^ 32
    → number (reverse_onto (digits fuel n) acc) 0 ≡ number acc n
unfolding number digits reverse_onto
number-digits zero n acc h w = absurd (omega arith)
number-digits (suc fuel) n acc h w = elim (Bool-cases (n == 0)) [
  | inl z ↦ let e : n ≡ 0 = ground arith in rw (z, e) refl
  | inr z ↦
      let some_left : n ≢ 0 = ground arith in
      let d = b'0' + n % 10 in
      let back : u32 (n / 10 * 10 + (d - b'0')) ≡ n = omega arith in
      rw z (
        number-digits fuel (n / 10) (d ∷ acc) (omega (arith, some_left)) (omega arith)
        ∙ ground (arith, back))
]

unfoldable pub IsDigit : ℕ → Type 0
IsDigit c = (b'0' ≤ c) × (c ≤ b'9')

Starts : List ℕ → Type 0
Starts [] = ⊥
Starts (c ∷ _) = IsDigit c

unfoldable pub AllDigits : List ℕ → Type 0
AllDigits [] = Unit
AllDigits (c ∷ cs) = IsDigit c × AllDigits cs

pub digits-AllDigits : (fuel n : ℕ) → AllDigits (digits fuel n)
unfolding digits AllDigits IsDigit
digits-AllDigits zero n = tt
digits-AllDigits (suc fuel) n = ground (arith, digits-AllDigits fuel (n / 10))

Starts-reverse : (ds acc : List ℕ) → AllDigits ds → Starts acc → Starts (reverse_onto ds acc)
unfolding AllDigits Starts reverse_onto
Starts-reverse [] acc all h = h
Starts-reverse (d ∷ ds) acc all h = Starts-reverse ds (d ∷ acc) all.1 all.0

-- A text that starts with a digit is read as its number.
atoi_digits : (cs : List ℕ) → Starts cs → atoi cs ≡ to_int (number cs 0)
unfolding atoi signed skip_spaces Starts IsDigit
atoi_digits [] h = absurd h
atoi_digits (c ∷ cs) h = ground arith

atoi_minus : (cs : List ℕ) → atoi (b'-' ∷ cs) ≡ to_int (negate (number cs 0))
unfolding atoi signed skip_spaces
atoi_minus cs = refl

-- The text of a number, and of its negation.
unfoldable pub decimal : ℕ → ℕ → List ℕ
decimal fuel n = reverse_onto (digits fuel n) []

decimal-Starts : (fuel n : ℕ) → 0 < n → n < fuel → Starts (decimal fuel n)
unfolding decimal digits reverse_onto Starts IsDigit
decimal-Starts zero n h k = absurd (omega arith)
decimal-Starts (suc fuel) n h k = elim (Bool-cases (n == 0)) [
  | inl z ↦ absurd (ground arith)
  | inr z ↦ rw z (
      Starts-reverse (digits fuel (n / 10)) ((b'0' + n % 10) ∷ []) (digits-AllDigits fuel (n / 10))
        (omega arith))
]

pub atoi-decimal : (fuel n : ℕ) → 0 < n → n < fuel → n < 2 ^ 31 → atoi (decimal fuel n) ≡ pos n
unfolding decimal number
atoi-decimal fuel n some_left enough small =
    atoi_digits (decimal fuel n) (decimal-Starts fuel n some_left enough)
    ∙ ap to_int (number-digits fuel n [] enough (omega arith))
    ∙ ground arith

pub atoi-minus_decimal :
    (fuel n : ℕ) → n + 1 < fuel → n + 1 < 2 ^ 31 → atoi (b'-' ∷ decimal fuel (n + 1)) ≡ negsuc n
unfolding decimal number
atoi-minus_decimal fuel n enough small =
    atoi_minus (decimal fuel (n + 1))
    ∙ ap (λ r. to_int (negate r)) (number-digits fuel (n + 1) [] enough (omega arith))
    ∙ ground arith

NoLineEnd : List ℕ → Type 0
NoLineEnd [] = Unit
NoLineEnd (c ∷ cs) = (c ≢ 10) × NoLineEnd cs

-- `katoi` reads a text without line ends as `atoi` does.
katoi-atoi : (cs : List ℕ) → NoLineEnd cs → katoi cs ≡ atoi cs
unfolding katoi atoi skip_spaces skip_blanks NoLineEnd
katoi-atoi [] h = refl
katoi-atoi (c ∷ cs) h = ground (arith, katoi-atoi cs)
