-- ===== src/Net/Table/Laws.antt =====
-- The table of src/drivers/net/arp.c as a map from addresses.
use mathlib.Core.Option.{some-ne-none}
use quantum_kernel.Net.Table.{update_entry, is_for, lookup, fill_free, new_entry}
use quantum_kernel.Net.State.{ArpEntry}
use mathlib.Core.Option
use quantum_kernel.Prelude.{
  Bool-cases, length, ℕ, zero, suc, ◌≡◌, refl, sym, ap, ◌∙◌, ◌≢◌, ◌⊎◌, inl, inr, Bool, true, false,
  ◌&&◌, none, some, List, [], ◌∷◌, arith,
}

-- Whether every entry is in use.
unfoldable pub full : List ArpEntry → Bool
full [] = true
full (e ∷ es) = e.valid && full es

-- The timestamp of entry `i`.
unfoldable pub stamp : List ArpEntry → ℕ → ℕ
stamp [] i = 0
stamp (e ∷ es) zero = e.timestamp
stamp (e ∷ es) (suc i) = stamp es i

-- Whether entry `i` is the address's.
unfoldable pub is_for_at : ℕ → List ArpEntry → ℕ → Bool
is_for_at ip [] i = false
is_for_at ip (e ∷ es) zero = is_for ip e
is_for_at ip (e ∷ es) (suc i) = is_for_at ip es i

module _ (ip : ℕ) (mac : List ℕ) (now : ℕ) (e : ArpEntry) (es : List ArpEntry) where
  update_here :
      is_for ip e ≡ true
      → update_entry ip mac now (e ∷ es) ≡ some (record e { mac = mac; timestamp = now } ∷ es)
  unfolding update_entry
  update_here h = ground arith

  update_later :
      is_for ip e ≡ false
      → update_entry ip mac now (e ∷ es) ≡ Option.map (λ r. e ∷ r) (update_entry ip mac now es)
  unfolding update_entry
  update_later h = ground arith

  fill_here : e.valid ≡ false → fill_free ip mac now (e ∷ es) ≡ some (new_entry ip mac now ∷ es)
  unfolding fill_free
  fill_here h = ground arith

  fill_later :
      e.valid ≡ true
      → fill_free ip mac now (e ∷ es) ≡ Option.map (λ r. e ∷ r) (fill_free ip mac now es)
  unfolding fill_free
  fill_later h = ground arith

pub lookup_here :
    (ip : ℕ) (e : ArpEntry) (es : List ArpEntry)
    → is_for ip e ≡ true
    → lookup ip (e ∷ es) ≡ some e.mac
unfolding lookup
lookup_here ip e es h = ground arith

pub lookup_later :
    (ip : ℕ) (e : ArpEntry) (es : List ArpEntry)
    → is_for ip e ≡ false
    → lookup ip (e ∷ es) ≡ lookup ip es
unfolding lookup
lookup_later ip e es h = ground arith

-- What a lookup finds behind an entry depends on the entry alone.
pub lookup_cong :
    (ip : ℕ) (e : ArpEntry) (es fs : List ArpEntry)
    → lookup ip es ≡ lookup ip fs
    → lookup ip (e ∷ es) ≡ lookup ip (e ∷ fs)
unfolding lookup
lookup_cong ip e es fs h = ground (arith, h)

is_for_other :
    (ip other : ℕ) (e : ArpEntry) → is_for ip e ≡ true → other ≢ ip → is_for other e ≡ false
unfolding is_for
is_for_other ip other e h d = ground (arith, h, d)

-- A table in which the address has the hardware address, and every other address what it had.
pub record IsPut (ip : ℕ) (mac : List ℕ) (t u : List ArpEntry) : Type 0 where
  pub size : length u ≡ length t
  pub put : lookup ip u ≡ some mac
  pub kept : (other : ℕ) → other ≢ ip → lookup other u ≡ lookup other t

IsPut-later :
    (ip : ℕ) (mac : List ℕ) (e : ArpEntry) (es u : List ArpEntry)
    → is_for ip e ≡ false
    → IsPut ip mac es u
    → IsPut ip mac (e ∷ es) (e ∷ u)
IsPut-later ip mac e es u passed there = record {
  size = ap suc there.size;
  put = lookup_later ip e u passed ∙ there.put;
  kept = λ other d. lookup_cong other e u es (there.kept other d);
}

pub update_entry_lem :
    (ip : ℕ) (mac : List ℕ) (now : ℕ) (t : List ArpEntry)
    → ((update_entry ip mac now t ≡ none) × (lookup ip t ≡ none))
      ⊎ ((u : List ArpEntry) × (update_entry ip mac now t ≡ some u)
          × (lookup ip t ≢ none)
          × IsPut ip mac t u)
unfolding update_entry lookup is_for
update_entry_lem ip mac now [] = inl (refl, refl)
update_entry_lem ip mac now (e ∷ es) = elim (Bool-cases (is_for ip e)) [
  | inl here ↦ inr (
    record e { mac = mac; timestamp = now } ∷ es,
    update_here ip mac now e es here,
    λ k. some-ne-none e.mac (sym (lookup_here ip e es here) ∙ k),
    record {
      size = refl;
      put = lookup_here ip (record e { mac = mac; timestamp = now }) es here;
      kept = λ other d.
          lookup_later other (record e { mac = mac; timestamp = now }) es
            (is_for_other ip other e here d)
          ∙ sym (lookup_later other e es (is_for_other ip other e here d));
    },
  )
  | inr passed ↦ elim (update_entry_lem ip mac now es) [
    | inl (none_there, unknown) ↦ inl (
      update_later ip mac now e es passed ∙ ap (Option.map (λ r. e ∷ r)) none_there,
      lookup_later ip e es passed ∙ unknown,
    )
    | inr (u, updated, was, there) ↦ inr (
      e ∷ u,
      update_later ip mac now e es passed ∙ ap (Option.map (λ r. e ∷ r)) updated,
      λ k. was (sym (lookup_later ip e es passed) ∙ k),
      IsPut-later ip mac e es u passed there,
    )
  ]
]

pub unknown_here :
    (ip : ℕ) (e : ArpEntry) (es : List ArpEntry) → lookup ip (e ∷ es) ≡ none → is_for ip e ≡ false
unknown_here ip e es h = elim (Bool-cases (is_for ip e)) [
  | inl here ↦ absurd (some-ne-none e.mac (sym (lookup_here ip e es here) ∙ h))
  | inr passed ↦ passed
]

pub unknown_later :
    (ip : ℕ) (e : ArpEntry) (es : List ArpEntry) → lookup ip (e ∷ es) ≡ none → lookup ip es ≡ none
unknown_later ip e es h = sym (lookup_later ip e es (unknown_here ip e es h)) ∙ h

pub is_for-new_entry : (ip : ℕ) (mac : List ℕ) (now : ℕ) → is_for ip (new_entry ip mac now) ≡ true
unfolding is_for
is_for-new_entry ip mac now = ground arith

pub is_for-new_entry_other :
    (ip other : ℕ) (mac : List ℕ) (now : ℕ)
    → other ≢ ip
    → is_for other (new_entry ip mac now) ≡ false
unfolding is_for
is_for-new_entry_other ip other mac now d = ground (arith, d)

invalid-is_for : (ip : ℕ) (e : ArpEntry) → e.valid ≡ false → is_for ip e ≡ false
unfolding is_for
invalid-is_for ip e h = ground (arith, h)

-- An entry that is not of `other` replaced by one of `ip`.
IsPut-here :
    (ip : ℕ) (mac : List ℕ) (now : ℕ) (e : ArpEntry) (es : List ArpEntry)
    → ((other : ℕ) → other ≢ ip → is_for other e ≡ false)
    → IsPut ip mac (e ∷ es) (new_entry ip mac now ∷ es)
IsPut-here ip mac now e es free = record {
  size = refl;
  put = lookup_here ip (new_entry ip mac now) es (is_for-new_entry ip mac now);
  kept = λ other d.
      lookup_later other _ es (is_for-new_entry_other ip other mac now d)
      ∙ sym (lookup_later other e es (free other d));
}

pub fill_free_lem :
    (ip : ℕ) (mac : List ℕ) (now : ℕ) (t : List ArpEntry)
    → lookup ip t ≡ none
    → ((fill_free ip mac now t ≡ none) × (full t ≡ true))
      ⊎ ((u : List ArpEntry) × (fill_free ip mac now t ≡ some u)
          × (full t ≡ false)
          × IsPut ip mac t u)
unfolding fill_free full
fill_free_lem ip mac now [] unknown = inl (refl, refl)
fill_free_lem ip mac now (e ∷ es) unknown = elim (Bool-cases e.valid) [
  | inr free ↦ inr (
    new_entry ip mac now ∷ es,
    fill_here ip mac now e es free,
    rw (free) refl,
    IsPut-here ip mac now e es (λ other _. invalid-is_for other e free),
  )
  | inl used ↦ elim (fill_free_lem ip mac now es (unknown_later ip e es unknown)) [
    | inl (none_there, all_used) ↦ inl (
      fill_later ip mac now e es used ∙ ap (Option.map (λ r. e ∷ r)) none_there,
      rw (used, all_used) refl,
    )
    | inr (u, filled, some_free, there) ↦ inr (
      e ∷ u,
      fill_later ip mac now e es used ∙ ap (Option.map (λ r. e ∷ r)) filled,
      rw (used, some_free) refl,
      IsPut-later ip mac e es u (unknown_here ip e es unknown) there,
    )
  ]
]
