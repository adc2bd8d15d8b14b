-- ===== src/Memory/Tests.antt =====
-- The allocators of src/mm/kmalloc.c and src/kernel/memory.c at concrete requests.
use quantum_kernel.Memory.{kmalloc, kmalloc_a, heap_start, kmalloc_aligned, align_up}
use quantum_kernel.Memory.Blocks.{
  Request, serve_all, demand, plain, serve, size_of, page, Blocks, aligned, serve_all_lem,
}
use quantum_kernel.Prelude.{◌≡◌, refl, List, [], ◌∷◌, arith}

abbrev requests : List Request
requests = plain 64 ∷ plain 4096 ∷ page 4096 ∷ aligned 4096 ∷ []

served :
    serve_all requests heap_start ≡ (0x1000000 ∷ 0x1000040 ∷ 0x1002000 ∷ 0x1003000 ∷ [], 0x1005000)
unfolding serve_all serve kmalloc kmalloc_a kmalloc_aligned align_up
served = refl

serve_all_lem_example :
    Blocks heap_start requests (serve_all requests heap_start).0 (serve_all requests heap_start).1
unfolding demand size_of
serve_all_lem_example = serve_all_lem requests heap_start (omega arith) (omega arith)
