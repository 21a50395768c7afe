-- ===== src/Secrets/Sorted.antt =====
-- Sorting the entries of a map forgets the order in which the map lists them.
use provider_crossplane_akui.Common.{◌==◌, ==_iff, String, ◌≡◌, refl, ◌∙◌, false, [], ◌∷◌, arith}
use provider_crossplane_akui.Common.Order.{text_lt_asym, text_lt_trans, text_lt_total}
use provider_crossplane_akui.Common.Order.{text_lt_asym, text_lt_trans, text_lt_total}
use provider_crossplane_akui.Secrets.{StringMap, insert_entry, sorted_entries}

-- Two lists of entries of one map: one is got from the other by swapping neighbours.
pub data Reordered : StringMap → StringMap → Type 0 where
  same : (m : StringMap) → Reordered m m
  keep : (e : String × String) {m n : StringMap} → Reordered m n → Reordered (e ∷ m) (e ∷ n)
  swap :
      (e f : String × String) (m : StringMap)
      → (e.0 == f.0) ≡ false
      → Reordered (e ∷ f ∷ m) (f ∷ e ∷ m)
  chain : {l m n : StringMap} → Reordered l m → Reordered m n → Reordered l n

insert_entry_comm :
    (e f : String × String) (m : StringMap)
    → (e.0 == f.0) ≡ false
    → insert_entry e (insert_entry f m) ≡ insert_entry f (insert_entry e m)
unfolding insert_entry
insert_entry_comm e f [] d =
    ground
      (arith, d, ==_iff e.0 f.0, text_lt_asym e.0 f.0, text_lt_asym f.0 e.0, text_lt_total e.0 f.0)
insert_entry_comm e f (x ∷ m) d = ground (
  arith,
  d,
  ==_iff e.0 f.0,
  insert_entry_comm e f m d,
  text_lt_asym e.0 f.0,
  text_lt_asym f.0 e.0,
  text_lt_total e.0 f.0,
  text_lt_trans x.0 e.0 f.0,
  text_lt_trans x.0 f.0 e.0,
  text_lt_total x.0 e.0,
  text_lt_total x.0 f.0,
)

pub sorted_entries-Reordered :
    {m n : StringMap} → Reordered m n → sorted_entries m ≡ sorted_entries n
unfolding sorted_entries
sorted_entries-Reordered (same m) = refl
sorted_entries-Reordered (keep e r) = rw (sorted_entries-Reordered r)
sorted_entries-Reordered (swap e f m d) = insert_entry_comm e f (sorted_entries m) d
sorted_entries-Reordered (chain r s) = sorted_entries-Reordered r ∙ sorted_entries-Reordered s
