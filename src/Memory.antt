-- ===== src/Memory.antt =====
-- src/mm/kmalloc.c, the kernel's allocator: a pointer that only moves up; and `kmalloc_aligned` of
-- src/kernel/memory.c at the alignment of its one caller, a page.
pub mod Blocks
mod Tests
use quantum_kernel.Prelude.{
  mul-le, sub-mul, length-drop, get_or-drop, le→leb, to_int, ltb, leb, if◌then◌else◌, bit, u8, u16,
  u32, ltb→lt, lt→ltb, le→ltb, ==_iff, Bool-cases, Option-cases, length, get_or, set, take, drop,
  length-append, length-set, get_or-set_self, get_or-set_ne, replicate, ℤ, pos, negsuc, is_neg,
  sign_extend, ℕ, zero, suc, ◌+◌, ◌-◌, ◌*◌, ◌/◌, ◌%◌, ◌^◌, ◌≤◌, ◌<◌, min, max, ◌≡◌, refl, sym, ap,
  ap₂, ◌∙◌, ◌≢◌, ◌↔◌, ◌⊎◌, inl, inr, Bool, true, false, ◌&&◌, ◌||◌, not, Option, none, some, List,
  [], ◌∷◌, ◌++◌, map, append-nil, append_assoc, arith, ◌==◌,
}

abbrev pub page_size : ℕ
page_size = 4096

-- `heap_ptr` at boot.
abbrev pub heap_start : ℕ
heap_start = 0x0100_0000

-- `(addr + align - 1) & ~(align - 1)` at `align` = PAGE_SIZE.
unfoldable pub align_up : ℕ → ℕ
align_up addr = u32 (addr + (page_size - 1)) / page_size * page_size

-- The address returned, and the new `heap_ptr`.
unfoldable pub kmalloc : ℕ → ℕ → ℕ × ℕ
kmalloc size heap_ptr = (heap_ptr, u32 (heap_ptr + size))

unfoldable pub kmalloc_a : ℕ → ℕ → ℕ × ℕ
kmalloc_a size heap_ptr = let aligned = align_up heap_ptr in (aligned, u32 (aligned + size))

unfoldable pub kmalloc_aligned : ℕ → ℕ → ℕ × ℕ
kmalloc_aligned size heap_ptr =
    let (addr, heap_ptr') = kmalloc (u32 (size + page_size)) heap_ptr in
    if addr == 0 then (0, heap_ptr') else (align_up addr, heap_ptr')
