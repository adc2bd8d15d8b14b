-- ===== src/Keyboard/Queue.antt =====
-- What the ring of src/drivers/keyboard.c promises: a first-in first-out queue of at most 127 bytes
-- (one of the 128 places stays empty), which drops what does not fit.
use quantum_kernel.Prelude.{
  ℕ, zero, suc, Bool, List, [], ◌∷◌, ◌++◌, ltb, if◌then◌else◌, length, ◌||◌, ◌==◌, bit, not, Option,
  none, some, ℤ, negsuc, sign_extend,
}
use quantum_kernel.Keyboard.{keymap_at}

unfoldable pub push : ℕ → List ℕ → List ℕ
push c q = if ltb (length q) 127 then q ++ (c ∷ []) else q

unfoldable pub pop : List ℕ → ℤ × List ℕ
pop [] = (negsuc 0, [])
pop (c ∷ q) = (sign_extend c, q)

-- What SYS_READ delivers of a queue, and what it leaves: it stops after `n` bytes, at the end of
-- the queue, and behind a byte from 128 on, which is taken out and not delivered.
unfoldable pub deliver : ℕ → List ℕ → List ℕ × List ℕ
deliver zero q = ([], q)
deliver (suc n) [] = ([], [])
deliver (suc n) (c ∷ q) =
    let rest = deliver n q in if ltb c 128 then (c ∷ rest.0, rest.1) else ([], q)

-- What a scancode types: the key after an escape prefix is an arrow or nothing; otherwise it is
-- `keymap`'s character, unless that is 0. The prefix itself and key releases type nothing.
unfoldable pub decode : Bool → ℕ → Option ℕ
decode extended sc =
    if sc == 0xe0 || bit sc 7
    then none
    else if not extended
    then (if keymap_at sc == 0 then none else some (keymap_at sc))
    else if sc == 0x48
    then some 0x80
    else if sc == 0x50
    then some 0x81
    else if sc == 0x4b
    then some 0x82
    else if sc == 0x4d
    then some 0x83
    else none

unfoldable pub type_in : Option ℕ → List ℕ → List ℕ
type_in none q = q
type_in (some c) q = push c q
