-- ===== src/Libc/User/Agree.antt =====
-- userspace/libc/src/string.c beside src/lib/libc.c and src/lib/string.c.
use quantum_kernel.Prelude.{
  Bool-cases, ltb, ◌≢◌, true, sym, ◌==◌, pos, to_int, lt→ltb, ◌<◌, ◌^◌, Option-cases, ℕ, zero, suc,
  ◌+◌, ◌≡◌, refl, ap, ◌∙◌, inl, inr, arith,
}
use quantum_kernel.Bytes.{Bytes, write8, fill}
use quantum_kernel.Libc.Copy.{memset-fill}
use quantum_kernel.Libc
use quantum_kernel.Libc.User

pub memset_agrees : (n p c : ℕ) (m : Bytes) → User.memset p c n m ≡ Libc.memset p c n m
unfolding User.memset Libc.memset
memset_agrees zero p c m = refl
memset_agrees (suc n) p c m = memset_agrees n (p + 1) c (write8 m p c)

memcpy_agrees : (n d s : ℕ) (m : Bytes) → User.memcpy d s n m ≡ Libc.memcpy d s n m
unfolding User.memcpy Libc.memcpy
memcpy_agrees zero d s m = refl
memcpy_agrees (suc n) d s m = memcpy_agrees n (d + 1) (s + 1) (write8 m d (m s))

memcmp_agrees : (n p q : ℕ) (m : Bytes) → User.memcmp p q n m ≡ Libc.memcmp p q n m
unfolding User.memcmp Libc.memcmp
memcmp_agrees zero p q m = refl
memcmp_agrees (suc n) p q m = ground (arith, memcmp_agrees n (p + 1) (q + 1) m)

-- One moves the pointer, the other an index.
strlen_agrees :
    (fuel s len : ℕ) (m : Bytes) → User.strlen fuel (s + len) len m ≡ Libc.strlen fuel s len m
unfolding User.strlen Libc.strlen
strlen_agrees zero s len m = refl
strlen_agrees (suc fuel) s len m =
    let e : s + len + 1 ≡ s + (len + 1) = omega arith in
    ground (arith, ap (λ a. User.strlen fuel a (len + 1) m) e, strlen_agrees fuel s (len + 1) m)

strcpy_agrees : (fuel d s : ℕ) (m : Bytes) → User.strcpy fuel d s m ≡ Libc.strcpy fuel d s m
unfolding User.strcpy Libc.strcpy
strcpy_agrees zero d s m = refl
strcpy_agrees (suc fuel) d s m =
    ground (arith, strcpy_agrees fuel (d + 1) (s + 1) (write8 m d (m s)))

strcmp_agrees : (fuel p q : ℕ) (m : Bytes) → User.strcmp fuel p q m ≡ Libc.strcmp fuel p q m
unfolding User.strcmp Libc.strcmp
strcmp_agrees zero p q m = refl
strcmp_agrees (suc fuel) p q m = ground (arith, strcmp_agrees fuel (p + 1) (q + 1) m)

strncmp_loop_agrees : (n p q : ℕ) (m : Bytes) → User.strncmp p q n m ≡ Libc.strncmp_loop p q n m
unfolding User.strncmp Libc.strncmp_loop
strncmp_loop_agrees zero p q m = refl
strncmp_loop_agrees (suc n) p q m = ground (arith, strncmp_loop_agrees n (p + 1) (q + 1) m)

-- A count below 2 ^ 31 is the same number as a `uint32_t` and as an `int`.
strncmp_agrees :
    (k p q : ℕ) (m : Bytes) → k < 2 ^ 31 → User.strncmp p q k m ≡ Libc.strncmp p q (to_int k) m
unfolding Libc.strncmp
strncmp_agrees k p q m h = rw (lt→ltb k (2 ^ 31) h) (strncmp_loop_agrees k p q m)

string_end_agrees : (fuel d : ℕ) (m : Bytes) → User.string_end fuel d m ≡ Libc.string_end fuel d m
unfolding User.string_end Libc.string_end
string_end_agrees zero d m = refl
string_end_agrees (suc fuel) d m = ground (arith, string_end_agrees fuel (d + 1) m)

strcat_agrees :
    (fuel fuel' d s : ℕ) (m : Bytes) → User.strcat fuel fuel' d s m ≡ Libc.strcat fuel fuel' d s m
unfolding User.strcat Libc.strcat
strcat_agrees fuel fuel' d s m = elim (Option-cases (Libc.string_end fuel d m)) [
  | inl lost ↦ ground (arith, string_end_agrees fuel d m)
  | inr (e, found) ↦ ground (arith, string_end_agrees fuel d m, strcpy_agrees fuel' e s m)
]

-- The programs' function stores one more 0 behind a string shorter than the count.
strncpy_ends :
    (n d s : ℕ) (m : Bytes) (a : ℕ)
    → m s ≡ 0
    → a ≢ d + suc n
    → User.memset (d + 1) 0 (suc n) (write8 m d (m s)) a ≡ Libc.memset d 0 (suc n) m a
unfolding fill write8
strncpy_ends n d s m a h apart =
    let w = write8 m d (m s) in
    ap (λ f. f a) (memset_agrees (suc n) (d + 1) 0 w)
    ∙ memset-fill (suc n) (d + 1) 0 w a
    ∙ ground (arith, h, apart)
    ∙ sym (memset-fill (suc n) d 0 m a)

strncpy_agrees :
    (n d s : ℕ) (m : Bytes) (a : ℕ)
    → a ≢ d + n
    → User.strncpy d s n m a ≡ Libc.strncpy d s (pos n) m a
unfolding User.strncpy Libc.strncpy User.copy_until Libc.copy_text User.memset Libc.memset
strncpy_agrees zero d s m a apart = refl
strncpy_agrees (suc n) d s m a apart = elim (Bool-cases (m s == 0)) [
  | inl ends ↦
      let nul : m s ≡ 0 = ground (arith, ends) in rw ends (strncpy_ends n d s m a nul apart)
  | inr goes_on ↦
      rw goes_on
        (strncpy_agrees n (d + 1) (s + 1) (write8 m d (m s)) a (λ e. apart (e ∙ omega arith)))
]

-- On every memory, and with every fuel, the programs' `memset`, `memcpy`, `memcmp`, `strlen`,
-- `strcpy`, `strcmp` and `strcat` return what the kernel's functions of the same name return. For a
-- count below 2 ^ 31, which the kernel's functions take as an `int`, so does `strncmp`, which tests
-- its strings in another order, and `strncpy` leaves the same memory but for the byte behind the
-- count.
pub agree :
    (n n' p q c k a : ℕ) (m : Bytes)
    → k < 2 ^ 31
    → a ≢ p + k
    → (User.memset p c n m ≡ Libc.memset p c n m)
      × (User.memcpy p q n m ≡ Libc.memcpy p q n m)
      × (User.memcmp p q n m ≡ Libc.memcmp p q n m)
      × (User.strlen n p 0 m ≡ Libc.strlen n p 0 m)
      × (User.strcpy n p q m ≡ Libc.strcpy n p q m)
      × (User.strcmp n p q m ≡ Libc.strcmp n p q m)
      × (User.strncmp p q k m ≡ Libc.strncmp p q (to_int k) m)
      × (User.strncpy p q k m a ≡ Libc.strncpy p q (to_int k) m a)
      × (User.strcat n n' p q m ≡ Libc.strcat n n' p q m)
agree n n' p q c k a m small apart = (
  memset_agrees n p c m,
  memcpy_agrees n p q m,
  memcmp_agrees n p q m,
  (let e : p ≡ p + 0 = omega arith in ap (λ a. User.strlen n a 0 m) e ∙ strlen_agrees n p 0 m),
  strcpy_agrees n p q m,
  strcmp_agrees n p q m,
  strncmp_agrees k p q m small,
  (let counted : ltb k (2 ^ 31) ≡ true = lt→ltb k (2 ^ 31) small in
      rw counted (strncpy_agrees k p q m a apart)),
  strcat_agrees n n' p q m,
)
