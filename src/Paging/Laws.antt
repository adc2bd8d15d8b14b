-- ===== src/Paging/Laws.antt =====
-- What `paging_get_physical` of src/cpu/paging.c finds after pages are mapped and unmapped.
use mathlib.Core.Path.{subst}
use quantum_kernel.Memory.{kmalloc_aligned, kmalloc, align_up}
use quantum_kernel.Paging.{
  Context, add_table, store_at, pd_index, paging_get_physical, clear_table, store_word, pt_index,
}
use quantum_kernel.Prelude.{
  ℕ, ◌+◌, ◌%◌, ◌^◌, ◌≤◌, ◌<◌, ◌≡◌, ◌≢◌, arith, if◌then◌else◌, ◌/◌, ◌==◌, ◌*◌, ◌⊎◌, ap, inr, inl,
  sym, ◌∙◌, ap₂,
}

-- Page tables at different addresses below the heap, the directory's entries for them.
pub record IsContext (ctx : Context) : Type 0 where
  pub apart : (i j : ℕ) → ctx.tables i ≡ ctx.tables j → ctx.tables i ≢ 0 → i ≡ j
  pub below : (i : ℕ) → ctx.tables i < ctx.heap_ptr
  pub aligned : (i : ℕ) → ctx.tables i % 0x1000 ≡ 0
  pub listed : (i : ℕ) → ctx.tables i ≢ 0 → ctx.directory i ≡ ctx.tables i + 7

-- What `kmalloc_aligned` gives for a page table.
pub table_block :
    (p : ℕ)
    → 0 < p
    → p + 0x4000 < 2 ^ 32
    → ((kmalloc_aligned 4096 p).0 % 0x1000 ≡ 0)
      × (p ≤ (kmalloc_aligned 4096 p).0)
      × ((kmalloc_aligned 4096 p).0 < (kmalloc_aligned 4096 p).1)
unfolding kmalloc_aligned kmalloc align_up
table_block p h k = ground arith

pub add_table-IsContext :
    (pd : ℕ) (ctx : Context)
    → IsContext ctx
    → 0 < ctx.heap_ptr
    → ctx.heap_ptr + 0x4000 < 2 ^ 32
    → ctx.tables pd ≡ 0
    → IsContext (add_table pd ctx)
unfolding add_table store_at
add_table-IsContext pd ctx c h k absent =
    let b = table_block ctx.heap_ptr h k in
    record {
      apart = λ i j e n. ground (arith, b, c.below i, c.below j, c.apart i j);
      below = λ i. ground (arith, b, c.below i);
      aligned = λ i. ground (arith, b, c.aligned i);
      listed = λ i n. ground (arith, c.listed i);
    }

-- The word that a virtual address leads to, 0 where there is no table.
unfoldable pub entry : ℕ → Context → ℕ
entry virt ctx =
    let table = ctx.tables (pd_index virt) in
    let page = ctx.words table (pt_index virt) in if table == 0 then 0 else page

-- The physical address that such a word gives.
unfoldable pub decode : ℕ → ℕ → ℕ
decode page virt = if page % 2 == 0 then 0 else page / 0x1000 * 0x1000 + virt % 0x1000

pub get_physical_entry :
    (virt : ℕ) (ctx : Context) → paging_get_physical virt ctx ≡ decode (entry virt ctx) virt
unfolding paging_get_physical entry decode
get_physical_entry virt ctx = ground arith

page_split : (v : ℕ) → v / 0x1000 ≡ v / 0x400000 * 1024 + v / 0x1000 % 1024
page_split v = omega arith

-- A new table changes no address's word.
pub entry-add_table :
    (pd v : ℕ) (ctx : Context)
    → IsContext ctx
    → 0 < ctx.heap_ptr
    → ctx.heap_ptr + 0x4000 < 2 ^ 32
    → ctx.tables pd ≡ 0
    → entry v (add_table pd ctx) ≡ entry v ctx
unfolding entry add_table store_at clear_table
entry-add_table pd v ctx c h k absent =
    let b = table_block ctx.heap_ptr h k in
    let low = c.below (pd_index v) in ground (arith, b, low, absent)

-- A store into the table of `virt`.
abbrev pub stored : ℕ → ℕ → Context → Context
stored virt e ctx = record ctx {
  words = store_word ctx.words (ctx.tables (pd_index virt)) (pt_index virt) e;
}

store_word_self : (w : ℕ → ℕ → ℕ) (t i e : ℕ) → store_word w t i e t i ≡ e
unfolding store_word
store_word_self w t i e = ground arith

store_word_apart :
    (w : ℕ → ℕ → ℕ) (t i e u j : ℕ) → (u ≢ t) ⊎ (j ≢ i) → store_word w t i e u j ≡ w u j
unfolding store_word
store_word_apart w t i e u j h = ground (arith, h)

pub entry_present :
    (v : ℕ) (ctx : Context)
    → ctx.tables (pd_index v) ≢ 0
    → entry v ctx ≡ ctx.words (ctx.tables (pd_index v)) (pt_index v)
unfolding entry
entry_present v ctx h = ground (arith, h)

-- It changes the word of that page,
pub entry-stored :
    (virt v e : ℕ) (ctx : Context)
    → ctx.tables (pd_index virt) ≢ 0
    → v / 0x1000 ≡ virt / 0x1000
    → entry v (stored virt e ctx) ≡ e
entry-stored virt v e ctx there same =
    let a = page_split v in
    let b = page_split virt in
    let pd : pd_index v ≡ pd_index virt = omega (arith, a, b, same) in
    let pt : pt_index v ≡ pt_index virt = ap (λ n. n % 1024) same in
    let there' : ctx.tables (pd_index v) ≢ 0 = subst (λ i. ctx.tables i ≢ 0) (sym pd) there in
    entry_present v (stored virt e ctx) there'
    ∙ ap₂
        (λ i j.
          store_word ctx.words (ctx.tables (pd_index virt)) (pt_index virt) e (ctx.tables i) j)
        pd pt
    ∙ store_word_self ctx.words (ctx.tables (pd_index virt)) (pt_index virt) e

entry_cong :
    (v : ℕ) (ctx : Context) (w : ℕ → ℕ → ℕ)
    → (ctx.tables (pd_index v) ≢ 0
        → w (ctx.tables (pd_index v)) (pt_index v)
          ≡ ctx.words (ctx.tables (pd_index v)) (pt_index v))
    → entry v (record ctx { words = w }) ≡ entry v ctx
unfolding entry
entry_cong v ctx w h = ground (arith, h)

table_cases : (a b : ℕ) → (a ≡ b) ⊎ (a ≢ b)
table_cases a b = ground arith

other_slot :
    (virt v : ℕ)
    → pd_index v ≡ pd_index virt
    → v / 0x1000 ≢ virt / 0x1000
    → pt_index v ≢ pt_index virt
other_slot virt v same other slot =
    let a = page_split v in let b = page_split virt in other (omega (arith, a, b, same, slot))

-- and no other.
pub entry-stored_apart :
    (virt v e : ℕ) (ctx : Context)
    → IsContext ctx
    → v / 0x1000 ≢ virt / 0x1000
    → entry v (stored virt e ctx) ≡ entry v ctx
entry-stored_apart virt v e ctx c other =
    entry_cong v ctx (store_word ctx.words (ctx.tables (pd_index virt)) (pt_index virt) e) (λ there.
      store_word_apart ctx.words (ctx.tables (pd_index virt)) (pt_index virt) e
        (ctx.tables (pd_index v)) (pt_index v)
        (elim (table_cases (ctx.tables (pd_index v)) (ctx.tables (pd_index virt))) [
          | inr differ ↦ inl differ
          | inl same ↦
              inr (other_slot virt v (c.apart (pd_index v) (pd_index virt) same there) other)
        ]))
