-- ===== src/Keyboard/Trace.antt =====
-- Whole sessions of src/drivers/keyboard.c: interrupts and SYS_READ calls in any order. The int 0x80
-- gate is an interrupt gate, so no interrupt falls inside a SYS_READ.
use quantum_kernel.Prelude.{
  ℕ, zero, suc, ◌≤◌, ◌≡◌, refl, ◌⊎◌, inl, inr, Bool, true, List, [], ◌∷◌, arith, ◌==◌,
}
use quantum_kernel.Keyboard.{Keyboard, keyboard_irq, kbd_pop, read_loop}
use quantum_kernel.Keyboard.Queue
use quantum_kernel.Keyboard.Refine.{
  IsRing, contents, irq_refines, irq-IsRing, read_loop-deliver, read_loop-IsRing,
}

pub data Event : Type 0 where
  scan : ℕ → Event
  read : ℕ → Event

-- What the SYS_READ calls of a session return.
unfoldable pub run : List Event → Keyboard → List (List ℕ)
run [] k = []
run (scan sc ∷ es) k = run es (keyboard_irq sc k)
run (read n ∷ es) k = let (bs, k') = read_loop n k in bs ∷ run es k'

-- The same on the abstract queue, with whether the last scancode was the escape prefix.
unfoldable pub run_queue : List Event → Bool → List ℕ → List (List ℕ)
run_queue [] x q = []
run_queue (scan sc ∷ es) x q = run_queue es (sc == 0xe0) (Queue.type_in (Queue.decode x sc) q)
run_queue (read n ∷ es) x q = let (bs, q') = Queue.deliver n q in bs ∷ run_queue es x q'

extended-read_loop : (n : ℕ) (k : Keyboard) → (read_loop n k).1.extended ≡ k.extended
unfolding read_loop kbd_pop
extended-read_loop zero k = refl
extended-read_loop (suc n) k = ground (arith, extended-read_loop n (kbd_pop k).1)

-- From a keyboard whose indices are in range, what every SYS_READ of a session of interrupts and
-- reads returns is what the bounded queue, started with the ring's contents, delivers.
pub run_refines :
    (es : List Event) {k : Keyboard} → IsRing k → run es k ≡ run_queue es k.extended (contents k)
unfolding run run_queue
run_refines [] v = refl
run_refines (scan sc ∷ es) {k} v =
    ground (arith, irq_refines sc v, run_refines es (irq-IsRing sc v))
run_refines (read n ∷ es) {k} v =
    ground
      (arith, extended-read_loop n k, read_loop-deliver n v, run_refines es (read_loop-IsRing n v))

decode_arrow :
    (sc : ℕ)
    → (sc ≡ 0x48) ⊎ (sc ≡ 0x50) ⊎ (sc ≡ 0x4b) ⊎ (sc ≡ 0x4d)
    → (c : ℕ) × (Queue.type_in (Queue.decode true sc) [] ≡ c ∷ []) × (128 ≤ c)
unfolding Queue.type_in Queue.decode Queue.push
decode_arrow sc (inl e) = (0x80, rw e, omega arith)
decode_arrow sc (inr (inl e)) = (0x81, rw e, omega arith)
decode_arrow sc (inr (inr (inl e))) = (0x82, rw e, omega arith)
decode_arrow sc (inr (inr (inr e))) = (0x83, rw e, omega arith)

deliver_above : (n c : ℕ) → 128 ≤ c → Queue.deliver (suc n) (c ∷ []) ≡ ([], [])
unfolding Queue.deliver
deliver_above n c h = ground arith

-- After the escape prefix, an arrow's scancode that arrives at an empty ring is taken out by the
-- next SYS_READ of at least one byte, and that SYS_READ returns nothing.
pub arrow_lost :
    (sc n : ℕ) {k : Keyboard}
    → IsRing k
    → contents k ≡ []
    → k.extended ≡ true
    → (sc ≡ 0x48) ⊎ (sc ≡ 0x50) ⊎ (sc ≡ 0x4b) ⊎ (sc ≡ 0x4d)
    → let (bs, k') = read_loop (suc n) (keyboard_irq sc k) in (bs ≡ []) × (contents k' ≡ [])
arrow_lost sc n v e x arrow =
    let (c, typed, high) = decode_arrow sc arrow in
    ground (arith, irq_refines sc v, read_loop-deliver (suc n) (irq-IsRing sc v), deliver_above n c)
