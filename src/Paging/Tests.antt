-- ===== src/Paging/Tests.antt =====
-- Pages mapped into a context without page tables.
use quantum_kernel.Memory.{kmalloc_aligned, kmalloc, align_up}
use quantum_kernel.Paging.Map.{IsMapped, paging_map_page_lem}
use quantum_kernel.Paging.Laws.{IsContext}
use quantum_kernel.Paging.{
  Context, paging_get_physical, paging_map_page, add_table, store_at, store_word, clear_table,
}
use quantum_kernel.Prelude.{◌≡◌, refl, arith}

abbrev empty : Context
empty = record { directory = λ _. 0; tables = λ _. 0; words = λ _ _. 0; heap_ptr = 0x0100_0000 }

empty-IsContext : IsContext empty
empty-IsContext = record {
  apart = λ i j e n. absurd (n refl);
  below = λ i. omega arith;
  aligned = λ i. refl;
  listed = λ i n. absurd (n refl);
}

paging_map_page_lem_example :
    IsMapped 0x0804_8000 0x0030_0000 empty (paging_map_page 0x0804_8000 0x0030_0000 7 empty)
paging_map_page_lem_example =
    paging_map_page_lem 0x0804_8000 0x0030_0000 7 empty empty-IsContext (omega arith) (omega arith)
      refl (omega arith)

mapped :
    paging_get_physical 0x0804_8123 (paging_map_page 0x0804_8000 0x0030_0000 7 empty) ≡ 0x0030_0123
unfolding paging_get_physical paging_map_page add_table kmalloc_aligned kmalloc align_up store_at
    store_word clear_table
mapped = refl
