-- ===== src/Net/Table/Put.antt =====
-- `arp_add_entry` of src/drivers/net/arp.c as an insertion into a map of bounded size.
use quantum_kernel.Net.State.{ArpEntry}
use quantum_kernel.Net.Table.Oldest.{IsOldest, oldest_lem}
use mathlib.Core.Path.{subst}
use quantum_kernel.Prelude.{
  length, set, ℕ, zero, suc, ◌<◌, ◌≡◌, refl, sym, ap, ◌∙◌, ◌≢◌, ◌⊎◌, inl, inr, Bool, true, false,
  none, some, List, [], ◌∷◌, arith, ◌↔◌,
}
use quantum_kernel.Net.Table.{lookup, update_entry, fill_free, oldest, add_entry, new_entry}
use quantum_kernel.Net.Table.Laws.{
  full, is_for_at, lookup_here, update_entry_lem, is_for-new_entry, lookup_later,
  is_for-new_entry_other, unknown_later, unknown_here, lookup_cong, fill_free_lem,
}

-- Entry `j` replaced, where no entry is the address's.
record IsEvicted (ip : ℕ) (mac : List ℕ) (j : ℕ) (t u : List ArpEntry) : Type 0 where
  size : length u ≡ length t
  put : lookup ip u ≡ some mac
  kept : (other : ℕ) → other ≢ ip → is_for_at other t j ≡ false → lookup other u ≡ lookup other t
  stays_unknown : (other : ℕ) → other ≢ ip → lookup other t ≡ none → lookup other u ≡ none

evict_lem :
    (ip : ℕ) (mac : List ℕ) (now : ℕ) (t : List ArpEntry) (j : ℕ)
    → j < length t
    → lookup ip t ≡ none
    → IsEvicted ip mac j t (set t j (new_entry ip mac now))
unfolding is_for_at
evict_lem ip mac now [] j h unknown = absurd (omega arith)
evict_lem ip mac now (e ∷ es) zero h unknown = record {
  size = refl;
  put = lookup_here ip (new_entry ip mac now) es (is_for-new_entry ip mac now);
  kept = λ other d victim.
      lookup_later other (new_entry ip mac now) es (is_for-new_entry_other ip other mac now d)
      ∙ sym (lookup_later other e es victim);
  stays_unknown = λ other d u.
      lookup_later other (new_entry ip mac now) es (is_for-new_entry_other ip other mac now d)
      ∙ unknown_later other e es u;
}
evict_lem ip mac now (e ∷ es) (suc j) h unknown =
    let there = evict_lem ip mac now es j (omega arith) (unknown_later ip e es unknown) in
    let u = set es j (new_entry ip mac now) in
    record {
      size = ap suc there.size;
      put = lookup_later ip e u (unknown_here ip e es unknown) ∙ there.put;
      kept = λ other d victim. lookup_cong other e u es (there.kept other d victim);
      stays_unknown = λ other d h'.
          lookup_later other e u (unknown_here other e es h')
          ∙ there.stays_unknown other d (unknown_later other e es h');
    }

-- What `arp_add_entry` does to the table.
pub record IsAdded (ip : ℕ) (mac : List ℕ) (t : List ArpEntry) (added : List ArpEntry × Bool)
    : Type 0 where
  pub size : length added.0 ≡ length t
  pub put : lookup ip added.0 ≡ some mac
  pub kept :
      (other : ℕ)
      → other ≢ ip
      → (added.1 ≡ false) ⊎ (full t ≡ false) ⊎ (is_for_at other t (oldest t) ≡ false)
      → lookup other added.0 ≡ lookup other t
  pub stays_unknown : (other : ℕ) → other ≢ ip → lookup other t ≡ none → lookup other added.0 ≡ none
  pub victim : IsOldest t (oldest t)
  pub told : (added.1 ≡ true) ↔ (lookup ip t ≡ none)

add_entry_updated :
    (ip : ℕ) (mac : List ℕ) (now : ℕ) (t u : List ArpEntry)
    → update_entry ip mac now t ≡ some u
    → add_entry ip mac now t ≡ (u, false)
unfolding add_entry
add_entry_updated ip mac now t u h = rw (h, add_entry) refl

add_entry_filled :
    (ip : ℕ) (mac : List ℕ) (now : ℕ) (t u : List ArpEntry)
    → update_entry ip mac now t ≡ none
    → fill_free ip mac now t ≡ some u
    → add_entry ip mac now t ≡ (u, true)
unfolding add_entry
add_entry_filled ip mac now t u h k = rw (h, k, add_entry) refl

add_entry_evicted :
    (ip : ℕ) (mac : List ℕ) (now : ℕ) (t : List ArpEntry)
    → update_entry ip mac now t ≡ none
    → fill_free ip mac now t ≡ none
    → add_entry ip mac now t ≡ (set t (oldest t) (new_entry ip mac now), true)
unfolding add_entry
add_entry_evicted ip mac now t h k = rw (h, k, add_entry) refl

false_ne_true : false ≢ true
false_ne_true h = ground (arith, h)

not_fresh :
    (t : List ArpEntry) (other : ℕ)
    → full t ≡ true
    → (true ≡ false) ⊎ (full t ≡ false) ⊎ (is_for_at other t (oldest t) ≡ false)
    → is_for_at other t (oldest t) ≡ false
not_fresh t other h c = ground (arith, h, c)

-- On a table that is not empty `arp_add_entry` leaves the address with the given hardware address, and
-- every other address with what it had, unless a full table had to give up an entry and that is the
-- other's: the first of those with the smallest timestamp. An unknown address stays unknown, and the
-- table keeps its size.
pub add_entry_lem :
    (ip : ℕ) (mac : List ℕ) (now : ℕ) (t : List ArpEntry)
    → 0 < length t
    → IsAdded ip mac t (add_entry ip mac now t)
add_entry_lem ip mac now t h = elim (update_entry_lem ip mac now t) [
  | inr (u, updated, was, there) ↦
      subst (IsAdded ip mac t) (sym (add_entry_updated ip mac now t u updated)) (record {
        size = there.size;
        put = there.put;
        kept = λ other d _. there.kept other d;
        stays_unknown = λ other d k. there.kept other d ∙ k;
        victim = oldest_lem t h;
        told = (λ k. absurd (false_ne_true k), λ k. absurd (was k));
      })
  | inl (absent, unknown) ↦ elim (fill_free_lem ip mac now t unknown) [
    | inr (u, filled, some_free, there) ↦
        subst (IsAdded ip mac t) (sym (add_entry_filled ip mac now t u absent filled)) (record {
          size = there.size;
          put = there.put;
          kept = λ other d _. there.kept other d;
          stays_unknown = λ other d k. there.kept other d ∙ k;
          victim = oldest_lem t h;
          told = (λ _. unknown, λ _. refl);
        })
    | inl (no_slot, all_used) ↦
        let there = evict_lem ip mac now t (oldest t) (oldest_lem t h).inside unknown in
        subst (IsAdded ip mac t) (sym (add_entry_evicted ip mac now t absent no_slot)) (record {
          size = there.size;
          put = there.put;
          kept = λ other d c. there.kept other d (not_fresh t other all_used c);
          stays_unknown = there.stays_unknown;
          victim = oldest_lem t h;
          told = (λ _. unknown, λ _. refl);
        })
  ]
]
