-- ===== src/Secrets/Digest.antt =====
-- What the digest of a Secret tells apart, and what it does not.
use provider_crossplane_akui.Common.{
  Bool-cases, is_empty, String, ◌<>◌, ◌≡◌, refl, sym, ◌∙◌, ◌≢◌, inl, inr, true, [], ◌∷◌,
}
use text.Mathlib.TextLemmas.{append_assoc}
use provider_crossplane_akui.Common.Nul.{nul_free, terminated≢empty, cut}
use provider_crossplane_akui.Common.Text.{text_lt}
use provider_crossplane_akui.Secrets.{StringMap, insert_entry, sorted_entries, hash_bytes, hash}
use provider_crossplane_akui.Secrets.Sorted.{
  Reordered, same, keep, swap, chain, sorted_entries-Reordered,
}
use provider_crossplane_akui.Common.Order.{text_lt_asym}

-- No key and no value of the map holds a NUL.
unfoldable pub IsNulFree : StringMap → Type 0
IsNulFree [] = Unit
IsNulFree ((k, v) ∷ m) = (nul_free k ≡ true) × (nul_free v ≡ true) × IsNulFree m

hash_bytes-injective :
    (m n : StringMap) → IsNulFree m → IsNulFree n → hash_bytes m ≡ hash_bytes n → m ≡ n
unfolding hash_bytes IsNulFree
hash_bytes-injective [] [] f g h = refl
hash_bytes-injective [] ((k, v) ∷ n) f g h = absurd (terminated≢empty k _ (sym h))
hash_bytes-injective ((k, v) ∷ m) [] f g h = absurd (terminated≢empty k _ h)
hash_bytes-injective ((k, v) ∷ m) ((j, u) ∷ n) f g h =
    let c = cut k j _ _ f.0 g.0 h in
    let d = cut v u _ _ f.1 g.1 c.1 in
    let ih = hash_bytes-injective m n f.2 g.2 d.1 in λ i. (c.0 i, d.0 i) ∷ ih i

insert_entry-IsNulFree :
    (k v : String) (m : StringMap)
    → nul_free k ≡ true
    → nul_free v ≡ true
    → IsNulFree m
    → IsNulFree (insert_entry (k, v) m)
unfolding insert_entry IsNulFree
insert_entry-IsNulFree k v [] f g h = (f, g, tt)
insert_entry-IsNulFree k v ((j, u) ∷ m) f g h = elim (Bool-cases (text_lt j k)) [
  | inl e ↦ rw e (h.0, h.1, insert_entry-IsNulFree k v m f g h.2)
  | inr e ↦ rw e (f, g, h)
]

sorted_entries-IsNulFree : (m : StringMap) → IsNulFree m → IsNulFree (sorted_entries m)
unfolding sorted_entries IsNulFree
sorted_entries-IsNulFree [] f = tt
sorted_entries-IsNulFree ((k, v) ∷ m) f =
    insert_entry-IsNulFree k v _ f.0 f.1 (sorted_entries-IsNulFree m f.2)

is_empty-Reordered : {m n : StringMap} → Reordered m n → is_empty m ≡ is_empty n
is_empty-Reordered (same m) = refl
is_empty-Reordered (keep e r) = refl
is_empty-Reordered (swap e f m d) = refl
is_empty-Reordered (chain r s) = is_empty-Reordered r ∙ is_empty-Reordered s

module _ (sum : String → String) where
  -- The digest of a map does not depend on the order in which the map lists its entries.
  pub hash-Reordered : (m n : StringMap) → Reordered m n → hash sum m ≡ hash sum n
  unfolding hash
  hash-Reordered m n r = rw (is_empty-Reordered r, sorted_entries-Reordered r)

  -- Where no key and no value holds a NUL and the sum of a text is never that of another or
  -- empty, maps with the same digest have the same entries.
  pub hash-tells :
      (m n : StringMap)
      → ((s t : String) → sum s ≡ sum t → s ≡ t)
      → ((s : String) → sum s ≢ "")
      → IsNulFree m
      → IsNulFree n
      → hash sum m ≡ hash sum n
      → sorted_entries m ≡ sorted_entries n
  unfolding hash
  hash-tells [] [] inj full f g h = refl
  hash-tells [] (e ∷ n) inj full f g h = absurd (full _ (sym h))
  hash-tells (e ∷ m) [] inj full f g h = absurd (full _ h)
  hash-tells (d ∷ m) (e ∷ n) inj full f g h =
      hash_bytes-injective _ _ (sorted_entries-IsNulFree (d ∷ m) f)
        (sorted_entries-IsNulFree (e ∷ n) g) (inj _ _ h)

  -- A value with a NUL can hide a key: the map of one key `k` whose value is `x`, NUL, `l`, NUL,
  -- `y` has the digest of the map of `k` with `x` and `l` with `y`, where `k` sorts before `l`.
  pub hash-collides :
      (k l x y : String)
      → text_lt k l ≡ true
      → hash sum ((k, x <> "\0" <> l <> "\0" <> y) ∷ []) ≡ hash sum ((k, x) ∷ (l, y) ∷ [])
  unfolding hash sorted_entries insert_entry hash_bytes
  hash-collides k l x y lt =
      rw (text_lt_asym k l lt, append_assoc x, append_assoc "\0", append_assoc l, append_assoc "\0")
        refl
