-- ===== src/Keyboard/Refine.antt =====
-- The ring of src/drivers/keyboard.c holds a bounded queue, and its operations are the queue's.
use quantum_kernel.Prelude.{
  ℕ, zero, suc, ◌+◌, ◌-◌, ◌%◌, ◌<◌, ◌≡◌, refl, ◌≢◌, ap, Bool, true, false, List, [], ◌∷◌, ◌++◌,
  arith, ◌==◌, bit, length, get_or, set, length-set, get_or-set_self, get_or-set_ne,
}
use quantum_kernel.Keyboard.{
  Keyboard, kbd_push, kbd_pop, push_arrow, keyboard_irq, read_loop, keymap_at,
}
use quantum_kernel.Keyboard.Queue

-- The representation invariant: every index is inside the array.
pub record IsRing (k : Keyboard) : Type 0 where
  pub size : length k.buf ≡ 128
  pub head_in : k.head < 128
  pub tail_in : k.tail < 128

-- The `n` bytes from index `i` on, going round.
abbrev pub window : List ℕ → ℕ → ℕ → List ℕ
window buf i zero = []
window buf i (suc n) = get_or buf i 0 ∷ window buf ((i + 1) % 128) n

abbrev pub count : Keyboard → ℕ
count k = (k.head + 128 - k.tail) % 128

unfoldable pub contents : Keyboard → List ℕ
contents k = window k.buf k.tail (count k)

length-window : (buf : List ℕ) (i n : ℕ) → length (window buf i n) ≡ n
length-window buf i zero = refl
length-window buf i (suc n) = ap suc (length-window buf ((i + 1) % 128) n)

window_of_pos :
    (buf : List ℕ) (i n : ℕ)
    → n ≢ 0
    → window buf i n ≡ get_or buf i 0 ∷ window buf ((i + 1) % 128) (n - 1)
window_of_pos buf i zero p = absurd (p refl)
window_of_pos buf i (suc n) p = ap (λ m. window buf i (suc m)) (omega arith)

-- Writing just past a window extends it by that byte.
window-set :
    (buf : List ℕ) (c n i h : ℕ)
    → length buf ≡ 128
    → i < 128
    → n < 127
    → h ≡ (i + n) % 128
    → window (set buf h c) i (n + 1) ≡ window buf i n ++ (c ∷ [])
window-set buf c zero i h size hi hn e = ground (arith, get_or-set_self buf i c 0)
window-set buf c (suc n) i h size hi hn e =
    ground (arith, window-set buf c n ((i + 1) % 128) h, get_or-set_ne buf {i = h} {j = i} c 0)

pub kbd_push-IsRing : (c : ℕ) {k : Keyboard} → IsRing k → IsRing (kbd_push c k)
unfolding kbd_push
kbd_push-IsRing c {k} v = ground (arith, length-set k.buf k.head c)

pub kbd_pop-IsRing : {k : Keyboard} → IsRing k → IsRing (kbd_pop k).1
unfolding kbd_pop
kbd_pop-IsRing v = ground arith

pub push_refines :
    (c : ℕ) {k : Keyboard} → IsRing k → contents (kbd_push c k) ≡ Queue.push c (contents k)
unfolding kbd_push Queue.push contents
push_refines c {k} v =
    ground (arith, length-window k.buf k.tail (count k), window-set k.buf c (count k) k.tail k.head)

pub pop_refines :
    {k : Keyboard} → IsRing k → let (c, k') = kbd_pop k in (c, contents k') ≡ Queue.pop (contents k)
unfolding kbd_pop Queue.pop contents
pop_refines {k} v = ground (arith, window_of_pos k.buf k.tail (count k))

read_loop-deliver_from :
    (n : ℕ) {k : Keyboard} (q : List ℕ)
    → IsRing k
    → contents k ≡ q
    → let (bs, k') = read_loop n k in (bs, contents k') ≡ Queue.deliver n q
unfolding read_loop Queue.deliver Queue.pop
read_loop-deliver_from zero q v e = rw e
read_loop-deliver_from (suc n) [] v e = ground (arith, pop_refines v)
read_loop-deliver_from (suc n) (c ∷ q) v e =
    ground (arith, pop_refines v, read_loop-deliver_from n q (kbd_pop-IsRing v))

-- SYS_READ is `deliver` on the queue.
pub read_loop-deliver :
    (n : ℕ) {k : Keyboard}
    → IsRing k
    → let (bs, k') = read_loop n k in (bs, contents k') ≡ Queue.deliver n (contents k)
read_loop-deliver n v = read_loop-deliver_from n _ v refl

pub read_loop-IsRing : (n : ℕ) {k : Keyboard} → IsRing k → IsRing (read_loop n k).1
unfolding read_loop
read_loop-IsRing zero v = v
read_loop-IsRing (suc n) {k} v =
    ground (arith, kbd_pop-IsRing v, read_loop-IsRing n (kbd_pop-IsRing v))

push_arrow-IsRing : (sc : ℕ) {k : Keyboard} → IsRing k → IsRing (push_arrow sc k)
unfolding push_arrow
push_arrow-IsRing sc {k} v = ground (
  arith,
  kbd_push-IsRing 0x80 v,
  kbd_push-IsRing 0x81 v,
  kbd_push-IsRing 0x82 v,
  kbd_push-IsRing 0x83 v,
)

pub irq-IsRing : (sc : ℕ) {k : Keyboard} → IsRing k → IsRing (keyboard_irq sc k)
unfolding keyboard_irq
irq-IsRing sc {k} v = ground (arith, push_arrow-IsRing sc v, kbd_push-IsRing (keymap_at sc) v)

extended-push : (c : ℕ) (k : Keyboard) → (kbd_push c k).extended ≡ k.extended
unfolding kbd_push
extended-push c k = ground arith

-- The rewrite that lets the `extended` flag be written over.
contents_extended : (b : Bool) (k : Keyboard) → contents (record k { extended = b }) ≡ contents k
unfolding contents
contents_extended b k = refl

arrow_refines :
    (sc : ℕ) {k : Keyboard}
    → IsRing k
    → (sc == 0xe0) ≡ false
    → bit sc 7 ≡ false
    → contents (push_arrow sc k) ≡ Queue.type_in (Queue.decode true sc) (contents k)
unfolding push_arrow Queue.type_in Queue.decode
arrow_refines sc {k} v plain press =
    ground
      (arith, push_refines 0x80 v, push_refines 0x81 v, push_refines 0x82 v, push_refines 0x83 v)

-- An interrupt puts what its scancode stands for behind the queue.
pub irq_refines :
    (sc : ℕ) {k : Keyboard}
    → IsRing k
    → (contents (keyboard_irq sc k) ≡ Queue.type_in (Queue.decode k.extended sc) (contents k))
      × ((keyboard_irq sc k).extended ≡ (sc == 0xe0))
unfolding keyboard_irq Queue.type_in Queue.decode
irq_refines sc {k} v = ground (
  arith,
  arrow_refines sc v,
  contents_extended true k,
  contents_extended false k,
  contents_extended false (push_arrow sc k),
  push_refines (keymap_at sc) v,
  extended-push (keymap_at sc) k,
)
