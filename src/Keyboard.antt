-- ===== src/Keyboard.antt =====
-- src/drivers/keyboard.c: scancodes from the controller, and the ring of 128 `char`s between the
-- interrupt handler and the readers; and the SYS_READ case of src/user/syscall.c, its reader.
pub mod Queue
pub mod Refine
pub mod Trace
mod Tests
use quantum_kernel.Prelude.{
  ℕ, zero, suc, ◌+◌, ◌-◌, ◌%◌, Bool, true, false, List, [], ◌∷◌, ltb, ◌==◌, bit, if◌then◌else◌,
  get_or, set, replicate, ℤ, pos, negsuc, is_neg, sign_extend,
}

abbrev pub buf_size : ℕ
buf_size = 128

-- The static variables of keyboard.c. A `char` is kept as its byte.
pub record Keyboard : Type 0 where
  pub buf : List ℕ
  pub head : ℕ
  pub tail : ℕ
  pub extended : Bool

-- Their values at boot.
abbrev pub initial : Keyboard
initial = record { buf = replicate buf_size 0; head = 0; tail = 0; extended = false }

-- `keymap`; the entries that the initialiser leaves out are 0, as `get_or` gives them.
abbrev pub keymap : List ℕ
keymap =
    0 ∷ 27 ∷ b'1' ∷ b'2' ∷ b'3' ∷ b'4' ∷ b'5' ∷ b'6' ∷ b'7' ∷ b'8' ∷ b'9' ∷ b'0' ∷ b'-' ∷ b'=' ∷ 8
    ∷ 9 ∷ b'q' ∷ b'w' ∷ b'e' ∷ b'r' ∷ b't' ∷ b'y' ∷ b'u' ∷ b'i' ∷ b'o' ∷ b'p' ∷ b'[' ∷ b']' ∷ 10 ∷ 0
    ∷ b'a' ∷ b's' ∷ b'd' ∷ b'f' ∷ b'g' ∷ b'h' ∷ b'j' ∷ b'k' ∷ b'l' ∷ b';' ∷ 39 ∷ 96 ∷ 0 ∷ 92 ∷ b'z'
    ∷ b'x' ∷ b'c' ∷ b'v' ∷ b'b' ∷ b'n' ∷ b'm' ∷ b',' ∷ b'.' ∷ b'/' ∷ 0 ∷ b'*' ∷ 0 ∷ b' ' ∷ []

-- `keymap[sc]`.
unfoldable pub keymap_at : ℕ → ℕ
keymap_at sc = get_or keymap sc 0

pub kbd_push : ℕ → Keyboard → Keyboard
kbd_push c k =
    let next = (k.head + 1) % buf_size in
    if next == k.tail then k else record k { buf = set k.buf k.head c; head = next }

-- The result is the popped `char` converted to `int`, or -1.
pub kbd_pop : Keyboard → ℤ × Keyboard
kbd_pop k =
    if k.head == k.tail
    then (negsuc 0, k)
    else (sign_extend (get_or k.buf k.tail 0), record k { tail = (k.tail + 1) % buf_size })

-- The `switch` on an extended scancode: KEY_UP, KEY_DOWN, KEY_LEFT, KEY_RIGHT.
pub push_arrow : ℕ → Keyboard → Keyboard
push_arrow sc k =
    if sc == 0x48
    then kbd_push 0x80 k
    else if sc == 0x50
    then kbd_push 0x81 k
    else if sc == 0x4b
    then kbd_push 0x82 k
    else if sc == 0x4d
    then kbd_push 0x83 k
    else k

-- `sc` is the byte read from port 0x60.
pub keyboard_irq : ℕ → Keyboard → Keyboard
keyboard_irq sc k =
    if sc == 0xe0
    then record k { extended = true }
    else if bit sc 7
    then record k { extended = false }
    else if k.extended
    then record (push_arrow sc k) { extended = false }
    else if keymap_at sc == 0
    then k
    else kbd_push (keymap_at sc) k

-- The loop of SYS_READ with `len - i` rounds left: the bytes stored into the user's buffer.
pub read_loop : ℕ → Keyboard → List ℕ × Keyboard
read_loop zero k = ([], k)
read_loop (suc n) k =
    let (c, k') = kbd_pop k in
    let rest = read_loop n k' in elim c [ pos b ↦ (b ∷ rest.0, rest.1) | negsuc _ ↦ ([], k') ]
