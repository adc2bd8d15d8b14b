-- ===== src/Paging.antt =====
-- src/cpu/paging.c: two-level page tables. A `page_context_t` is its table of pointers, 0 where there
-- is no page table, and the words of its directory; a page table is found by its address. The
-- invalidation of a processor's cached entry is left out.
pub mod Laws
pub mod Map
use quantum_kernel.Memory.{kmalloc_aligned}
mod Tests
use quantum_kernel.Prelude.{
  mul-le, sub-mul, length-drop, get_or-drop, le→leb, to_int, ltb, leb, if◌then◌else◌, bit, u8, u16,
  u32, ltb→lt, lt→ltb, le→ltb, ==_iff, Bool-cases, Option-cases, length, get_or, set, take, drop,
  length-append, length-set, get_or-set_self, get_or-set_ne, replicate, ℤ, pos, negsuc, is_neg,
  sign_extend, ℕ, zero, suc, ◌+◌, ◌-◌, ◌*◌, ◌/◌, ◌%◌, ◌^◌, ◌≤◌, ◌<◌, min, max, ◌≡◌, refl, sym, ap,
  ap₂, ◌∙◌, ◌≢◌, ◌↔◌, ◌⊎◌, inl, inr, Bool, true, false, ◌&&◌, ◌||◌, not, Option, none, some, List,
  [], ◌∷◌, ◌++◌, map, append-nil, append_assoc, arith, ◌==◌,
}

abbrev pub page_present : ℕ
page_present = 1

-- PAGE_PRESENT | PAGE_WRITE | PAGE_USER
abbrev pub all_access : ℕ
all_access = 7

abbrev pub page_entries : ℕ
page_entries = 1024

-- `page_context_t`, with the words of page tables by their address and `heap_ptr`.
pub record Context : Type 0 where
  pub directory : ℕ → ℕ
  pub tables : ℕ → ℕ
  pub words : ℕ → ℕ → ℕ
  pub heap_ptr : ℕ

-- `virt >> 22`
abbrev pub pd_index : ℕ → ℕ
pd_index virt = virt / 0x400000

-- `(virt >> 12) & 0x3FF`
abbrev pub pt_index : ℕ → ℕ
pt_index virt = virt / 0x1000 % page_entries

-- `(*table)[i] = v`
unfoldable pub store_word : (ℕ → ℕ → ℕ) → ℕ → ℕ → ℕ → ℕ → ℕ → ℕ
store_word words table i v t j = if (t == table) && (j == i) then v else words t j

-- `memset(table, 0, sizeof(page_table_t))`
unfoldable pub clear_table : (ℕ → ℕ → ℕ) → ℕ → ℕ → ℕ → ℕ
clear_table words table t j = if t == table then 0 else words t j

-- `a[i] = v`
unfoldable pub store_at : (ℕ → ℕ) → ℕ → ℕ → ℕ → ℕ
store_at a i v j = if j == i then v else a j

-- `x | flags`, for an `x` whose low twelve bits are clear and flags within these bits.
abbrev pub with_flags : ℕ → ℕ → ℕ
with_flags x flags = x + flags

-- `virt_to_phys` of src/kernel/memory.c
abbrev pub virt_to_phys : ℕ → ℕ
virt_to_phys virt = virt

-- The branch of `paging_map_page` that makes a table.
unfoldable pub add_table : ℕ → Context → Context
add_table pd ctx =
    let (table, heap_ptr) = kmalloc_aligned (page_entries * 4) ctx.heap_ptr in
    record {
      directory = store_at ctx.directory pd (with_flags (virt_to_phys table) all_access);
      tables = store_at ctx.tables pd table;
      words = clear_table ctx.words table;
      heap_ptr = heap_ptr;
    }

-- `flags` is within the low twelve bits.
unfoldable pub paging_map_page : ℕ → ℕ → ℕ → Context → Context
paging_map_page virt phys flags ctx =
    let pd = pd_index virt in
    let added = if ctx.tables pd == 0 then add_table pd ctx else ctx in
    let entry = with_flags (phys / 0x1000 * 0x1000) flags in
    record added { words = store_word added.words (added.tables pd) (pt_index virt) entry }

unfoldable pub paging_unmap_page : ℕ → Context → Context
paging_unmap_page virt ctx =
    let table = ctx.tables (pd_index virt) in
    let words = store_word ctx.words table (pt_index virt) 0 in
    if table == 0 then ctx else record ctx { words = words }

-- `page & PAGE_PRESENT` is the lowest bit.
unfoldable pub paging_get_physical : ℕ → Context → ℕ
paging_get_physical virt ctx =
    let table = ctx.tables (pd_index virt) in
    let page = ctx.words table (pt_index virt) in
    if table == 0 then 0 else if page % 2 == 0 then 0 else page / 0x1000 * 0x1000 + virt % 0x1000

-- A round of the loops of `paging_init` that map the low half and the kernel's part by identity.
unfoldable pub map_identity : ℕ → Context → Context
map_identity i ctx = record ctx {
  words = store_word ctx.words (ctx.tables (pd_index i)) (pt_index i) (with_flags i all_access);
}
