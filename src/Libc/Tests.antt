-- ===== src/Libc/Tests.antt =====
-- Tests of the string functions, and their theorems at concrete strings.
use quantum_kernel.Libc.Number.{atoi, itoa, signed, skip_spaces, number}
use quantum_kernel.Libc.Number.RoundTrip.{magnitude, atoi-itoa}
use quantum_kernel.Libc.User.Agree.{agree}
use quantum_kernel.Libc.User.Overrun.{strncpy_overruns}
use quantum_kernel.Bytes.Laws.{store_list_small}
use quantum_kernel.Libc.{memcpy}
use quantum_kernel.Libc.Text.{IsString, compare_text, strcat-append, strcmp-compare_text}
use quantum_kernel.Prelude.{
  pos, negsuc, ℕ, ◌≤◌, ◌<◌, ◌≡◌, refl, ◌↔◌, ◌⊎◌, some, List, [], ◌∷◌, arith,
}
use quantum_kernel.Bytes.{Bytes, store_list, zeros}
use quantum_kernel.Libc
use quantum_kernel.Libc.User

abbrev tea_text : List ℕ
tea_text = b't' ∷ b'e' ∷ b'a' ∷ []

abbrev pot_text : List ℕ
pot_text = b'p' ∷ b'o' ∷ b't' ∷ []

-- "tea" at 100, "pot" at 200.
abbrev memory : Bytes
memory = store_list (store_list zeros 100 tea_text) 200 pot_text

tea : IsString memory 100 tea_text
unfolding IsString store_list
tea = omega arith

pot : IsString memory 200 pot_text
unfolding IsString store_list
pot = omega arith

memory_small : (a : ℕ) → memory a < 256
memory_small =
    store_list_small (store_list zeros 100 tea_text) 200 pot_text
      (store_list_small zeros 100 tea_text (λ a. omega arith) (omega arith)) (omega arith)

strcmp-compare_text_example :
    (Libc.strcmp 4 100 200 memory ≡ some (compare_text tea_text pot_text))
    × ((compare_text tea_text pot_text ≡ pos 0) ↔ (tea_text ≡ pot_text))
strcmp-compare_text_example = strcmp-compare_text tea_text pot_text 100 200 memory tea pot

strcat-append_example :
    (m' : Bytes) × (Libc.strcat 4 4 100 200 memory ≡ some m')
    × IsString m' 100 (b't' ∷ b'e' ∷ b'a' ∷ b'p' ∷ b'o' ∷ b't' ∷ [])
    × ((k : ℕ) → (k < 103) ⊎ (107 ≤ k) → m' k ≡ memory k)
strcat-append_example =
    strcat-append tea_text pot_text 100 200 memory tea pot memory_small (omega arith)

-- A count of 8 for the three bytes of "tea": the byte 300 + 8 is overwritten.
strncpy_overruns_example : User.strncpy 300 100 8 memory 308 ≡ 0
strncpy_overruns_example =
    strncpy_overruns tea_text 8 300 100 memory tea (omega arith) (omega arith)

agree_example :
    (User.memset 100 7 3 memory ≡ Libc.memset 100 7 3 memory)
    × (User.memcpy 100 200 3 memory ≡ Libc.memcpy 100 200 3 memory)
    × (User.memcmp 100 200 3 memory ≡ Libc.memcmp 100 200 3 memory)
    × (User.strlen 3 100 0 memory ≡ Libc.strlen 3 100 0 memory)
    × (User.strcpy 3 100 200 memory ≡ Libc.strcpy 3 100 200 memory)
    × (User.strcmp 3 100 200 memory ≡ Libc.strcmp 3 100 200 memory)
    × (User.strncmp 100 200 2 memory ≡ Libc.strncmp 100 200 (pos 2) memory)
    × (User.strncpy 100 200 2 memory 101 ≡ Libc.strncpy 100 200 (pos 2) memory 101)
    × (User.strcat 3 4 100 200 memory ≡ Libc.strcat 3 4 100 200 memory)
agree_example = agree 3 4 100 200 7 2 101 memory (omega arith) (omega arith)

atoi-itoa_example :
    (m' : Bytes) × (cs : List ℕ) × (itoa 121 (negsuc 119) 300 10 memory ≡ some m')
    × IsString m' 300 cs
    × (atoi cs ≡ negsuc 119)
unfolding magnitude
atoi-itoa_example = atoi-itoa 121 (negsuc 119) 300 memory (omega arith) (omega arith) memory_small

atoi_reads : atoi (b' ' ∷ b'-' ∷ b'1' ∷ b'2' ∷ b'0' ∷ []) ≡ negsuc 119
unfolding atoi signed skip_spaces number
atoi_reads = refl
