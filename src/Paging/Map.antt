-- ===== src/Paging/Map.antt =====
-- `paging_map_page` and `paging_unmap_page` of src/cpu/paging.c against `paging_get_physical`.
use quantum_kernel.Paging.Laws.{
  IsContext, entry, table_block, add_table-IsContext, stored, decode, entry-add_table,
  get_physical_entry, entry-stored, entry-stored_apart,
}
use quantum_kernel.Paging.{
  Context, add_table, pd_index, store_at, paging_get_physical, paging_map_page, paging_unmap_page,
}
use quantum_kernel.Prelude.{
  if◌then◌else◌, ==_iff, Bool-cases, ℕ, ◌+◌, ◌*◌, ◌/◌, ◌%◌, ◌^◌, ◌<◌, ◌≡◌, refl, sym, ap, ◌∙◌, ◌≢◌,
  inl, inr, false, arith, ◌==◌,
}

-- The table of a page is there once it is mapped, and nothing else has changed before the store.
record IsReady (virt : ℕ) (ctx added : Context) : Type 0 where
  context : IsContext added
  there : added.tables (pd_index virt) ≢ 0
  same : (v : ℕ) → entry v added ≡ entry v ctx

-- The context in which `paging_map_page` stores the entry.
abbrev with_table : ℕ → Context → Context
with_table virt ctx = if ctx.tables (pd_index virt) == 0 then add_table (pd_index virt) ctx else ctx

new_table_there :
    (pd : ℕ) (ctx : Context)
    → 0 < ctx.heap_ptr
    → ctx.heap_ptr + 0x4000 < 2 ^ 32
    → (add_table pd ctx).tables pd ≢ 0
unfolding add_table store_at
new_table_there pd ctx h k = let b = table_block ctx.heap_ptr h k in ground (arith, b)

present_table : (t : ℕ) → (t == 0) ≡ false → t ≢ 0
present_table t h e = ground (arith, h, e)

ready :
    (virt : ℕ) (ctx : Context)
    → IsContext ctx
    → 0 < ctx.heap_ptr
    → ctx.heap_ptr + 0x4000 < 2 ^ 32
    → IsReady virt ctx (with_table virt ctx)
ready virt ctx c h k = elim (Bool-cases (ctx.tables (pd_index virt) == 0)) [
  | inl absent ↦
      let none_there = (==_iff (ctx.tables (pd_index virt)) 0).0 absent in
      rw absent (record {
        context = add_table-IsContext (pd_index virt) ctx c h k none_there;
        there = new_table_there (pd_index virt) ctx h k;
        same = λ v. entry-add_table (pd_index virt) v ctx c h k none_there;
      })
  | inr present ↦ rw present (record {
    context = c;
    there = present_table (ctx.tables (pd_index virt)) present;
    same = λ v. refl;
  })
]

stored-IsContext : (virt e : ℕ) (ctx : Context) → IsContext ctx → IsContext (stored virt e ctx)
stored-IsContext virt e ctx c = record {
  apart = c.apart;
  below = c.below;
  aligned = c.aligned;
  listed = c.listed;
}

decode_present :
    (phys flags virt : ℕ)
    → flags % 2 ≡ 1
    → flags < 0x1000
    → decode (phys / 0x1000 * 0x1000 + flags) virt ≡ phys / 0x1000 * 0x1000 + virt % 0x1000
unfolding decode
decode_present phys flags virt odd low = ground arith

-- What a lookup finds once a page is mapped to a frame.
pub record IsMapped (virt phys : ℕ) (ctx mapped : Context) : Type 0 where
  context : IsContext mapped
  inside :
      (v : ℕ)
      → v / 0x1000 ≡ virt / 0x1000
      → paging_get_physical v mapped ≡ phys / 0x1000 * 0x1000 + v % 0x1000
  outside :
      (v : ℕ)
      → v / 0x1000 ≢ virt / 0x1000
      → paging_get_physical v mapped ≡ paging_get_physical v ctx

-- In a context whose page tables stand apart, with room for one more below 2 ^ 32, and with flags
-- that have PAGE_PRESENT and stay in the low twelve bits, `paging_map_page`, which makes the page
-- table when there is none, leads every address of the page to its place in the frame and every
-- other address to where it led before; the page tables stand apart again.
pub paging_map_page_lem :
    (virt phys flags : ℕ) (ctx : Context)
    → IsContext ctx
    → 0 < ctx.heap_ptr
    → ctx.heap_ptr + 0x4000 < 2 ^ 32
    → flags % 2 ≡ 1
    → flags < 0x1000
    → IsMapped virt phys ctx (paging_map_page virt phys flags ctx)
unfolding paging_map_page
paging_map_page_lem virt phys flags ctx c h k odd low =
    let r = ready virt ctx c h k in
    let e : ℕ = phys / 0x1000 * 0x1000 + flags in
    let added = with_table virt ctx in
    record {
      context = stored-IsContext virt e added r.context;
      inside = λ v page.
          get_physical_entry v (stored virt e added)
          ∙ ap (λ w. decode w v) (entry-stored virt v e added r.there page)
          ∙ decode_present phys flags v odd low;
      outside = λ v other.
          get_physical_entry v (stored virt e added)
          ∙ ap (λ w. decode w v) (entry-stored_apart virt v e added r.context other ∙ r.same v)
          ∙ sym (get_physical_entry v ctx);
    }

entry_absent : (v : ℕ) (ctx : Context) → ctx.tables (pd_index v) ≡ 0 → entry v ctx ≡ 0
unfolding entry
entry_absent v ctx h = ground (arith, h)

-- What a lookup finds once a page is unmapped.
pub record IsUnmapped (virt : ℕ) (ctx unmapped : Context) : Type 0 where
  context : IsContext unmapped
  inside : (v : ℕ) → v / 0x1000 ≡ virt / 0x1000 → paging_get_physical v unmapped ≡ 0
  outside :
      (v : ℕ)
      → v / 0x1000 ≢ virt / 0x1000
      → paging_get_physical v unmapped ≡ paging_get_physical v ctx

no_frame : (v : ℕ) (ctx : Context) → entry v ctx ≡ 0 → paging_get_physical v ctx ≡ 0
unfolding decode
no_frame v ctx h = get_physical_entry v ctx ∙ ap (λ w. decode w v) h

same_pd : (v virt : ℕ) → v / 0x1000 ≡ virt / 0x1000 → pd_index v ≡ pd_index virt
same_pd v virt h = omega arith

-- In a context whose page tables stand apart, `paging_unmap_page` leaves the page's addresses
-- without a place, whether they had one or not, and every other address where it led.
pub paging_unmap_page_lem :
    (virt : ℕ) (ctx : Context) → IsContext ctx → IsUnmapped virt ctx (paging_unmap_page virt ctx)
unfolding paging_unmap_page
paging_unmap_page_lem virt ctx c = elim (Bool-cases (ctx.tables (pd_index virt) == 0)) [
  | inl absent ↦
      let gone = (==_iff (ctx.tables (pd_index virt)) 0).0 absent in
      rw absent (record {
        context = c;
        inside = λ v page.
            no_frame v ctx (entry_absent v ctx (ap ctx.tables (same_pd v virt page) ∙ gone));
        outside = λ v other. refl;
      })
  | inr present ↦ rw present (record {
    context = stored-IsContext virt 0 ctx c;
    inside = λ v page.
        no_frame v (stored virt 0 ctx)
          (entry-stored virt v 0 ctx (present_table (ctx.tables (pd_index virt)) present) page);
    outside = λ v other.
        get_physical_entry v (stored virt 0 ctx)
        ∙ ap (λ w. decode w v) (entry-stored_apart virt v 0 ctx c other)
        ∙ sym (get_physical_entry v ctx);
  })
]
