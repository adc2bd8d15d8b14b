-- ===== src/Memory/Blocks.antt =====
-- Sequences of calls of the allocators of src/mm/kmalloc.c and src/kernel/memory.c, and the blocks
-- that they give out.
use Prim.{Unit}
use quantum_kernel.Memory.{kmalloc, page_size, align_up, kmalloc_a, kmalloc_aligned}
use quantum_kernel.Prelude.{u32, ℕ, ◌+◌, ◌%◌, ◌^◌, ◌≤◌, ◌<◌, ◌≡◌, false, List, [], ◌∷◌, arith, ◌==◌}

-- A call, with its size.
pub data Request : Type 0 where
  plain : ℕ → Request
  page : ℕ → Request
  aligned : ℕ → Request

unfoldable pub size_of : Request → ℕ
size_of (plain n) = n
size_of (page n) = n
size_of (aligned n) = n

unfoldable pub serve : Request → ℕ → ℕ × ℕ
serve (plain n) p = kmalloc n p
serve (page n) p = kmalloc_a n p
serve (aligned n) p = kmalloc_aligned n p

-- The addresses given out, one for each call.
unfoldable pub serve_all : List Request → ℕ → List ℕ × ℕ
serve_all [] p = ([], p)
serve_all (r ∷ rs) p = let (a, p') = serve r p in let rest = serve_all rs p' in (a ∷ rest.0, rest.1)

-- What the calls take at most: each its size, and up to a page of alignment.
unfoldable pub demand : List Request → ℕ
demand [] = 0
demand (r ∷ rs) = size_of r + page_size + demand rs

-- Starts on a page, where the call promises it.
pub Starts : Request → ℕ → Type 0
Starts (plain _) _ = Unit
Starts (page n) a = a % page_size ≡ 0
Starts (aligned n) a = a % page_size ≡ 0

-- The blocks lie behind each other from `p` on, up to `q`, each where its call promises.
pub data Blocks : ℕ → List Request → List ℕ → ℕ → Type 0 where
  none_left : {p q : ℕ} → p ≤ q → Blocks p [] [] q
  block :
      {p a q : ℕ} {r : Request} {rs : List Request} {found : List ℕ}
      → p ≤ a
      → Starts r a
      → Blocks (a + size_of r) rs found q
      → Blocks p (r ∷ rs) (a ∷ found) q

align_up_lem :
    (p : ℕ)
    → p + page_size ≤ 2 ^ 32
    → (align_up p % page_size ≡ 0) × (p ≤ align_up p) × (align_up p < p + page_size)
unfolding align_up
align_up_lem p h = ground arith

-- What one call gives: the address, and the pointer behind the block.
record IsServed (r : Request) (p : ℕ) (o : ℕ × ℕ) : Type 0 where
  starts : Starts r o.0
  above : p ≤ o.0
  inside : o.0 + size_of r ≤ o.1
  near : o.1 ≤ p + size_of r + page_size

serve_lem :
    (r : Request) (p : ℕ) → 0 < p → p + size_of r + page_size < 2 ^ 32 → IsServed r p (serve r p)
unfolding serve kmalloc kmalloc_a kmalloc_aligned size_of Starts
serve_lem (plain n) p some_heap fits =
    let e : u32 (p + n) ≡ p + n = omega arith in
    record {
      starts = record {};
      above = omega arith;
      inside = rw e (omega arith);
      near = rw e (omega arith);
    }
serve_lem (page n) p some_heap fits =
    let (on_page, up, close) = align_up_lem p (omega arith) in
    let e : u32 (align_up p + n) ≡ align_up p + n = omega (arith, close, fits) in
    record { starts = on_page; above = up; inside = rw e (omega arith); near = rw e (omega arith) }
serve_lem (aligned n) p some_heap fits =
    let (on_page, up, close) = align_up_lem p (omega arith) in
    let q : (p == 0) ≡ false = ground arith in
    let w : u32 (p + u32 (n + page_size)) ≡ p + (n + page_size) = omega arith in
    record {
      starts = rw q on_page;
      above = rw q up;
      inside = rw (q, w) (omega arith);
      near = rw (q, w) (omega arith);
    }

Blocks-le :
    {p q o : ℕ} {rs : List Request} {found : List ℕ}
    → o ≤ p
    → Blocks p rs found q
    → Blocks o rs found q
Blocks-le below (none_left l) = none_left (omega arith)
Blocks-le below (block l s b) = block (omega arith) s b

-- Any sequence of calls of `kmalloc`, `kmalloc_a` and `kmalloc_aligned` that starts at a heap pointer
-- other than 0 and asks, with a page for each call, for no more than is left below 2 ^ 32: the blocks
-- given out lie one behind the other, so no two of them overlap, all between the old heap pointer
-- and the new one, and those of the last two functions start on a page.
pub serve_all_lem :
    (rs : List Request) (p : ℕ)
    → 0 < p
    → p + demand rs < 2 ^ 32
    → Blocks p rs (serve_all rs p).0 (serve_all rs p).1
unfolding serve_all demand
serve_all_lem [] p some_heap fits = none_left (omega arith)
serve_all_lem (r ∷ rs) p some_heap fits =
    let s = serve_lem r p some_heap (omega arith) in
    let rest =
      serve_all_lem rs (serve r p).1 (omega (arith, s.above, s.inside)) (omega (arith, s.near)) in
    block s.above s.starts (Blocks-le s.inside rest)
