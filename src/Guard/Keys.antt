-- ===== src/Guard/Keys.antt =====
-- The life of one failed write, and the keys: no resource needs a UID here.
use provider_crossplane_akui.Common.{
  ok, Result-cases, ==_refl, String, ◌≡◌, refl, ap, ◌↔◌, inl, inr, true, false, none, some, List,
  [], ◌∷◌, ◌++◌, arith, eq_iff,
}
use provider_crossplane_akui.Reason.{Error, is_terminal}
use provider_crossplane_akui.Managed.{reconcile_error, Meta, set_conditions}
use provider_crossplane_akui.Guard.{
  TerminalWriteKey, Part, write_parts, new_terminal_write_key, Entries, Guard,
  same_terminal_write_payload, delete_resource, assign, record_write, clear, has_resource,
  find_payload, suppress,
}
use provider_crossplane_akui.Guard.Invariant.{
  same_resource_refl, Lacks, delete_resource-Lacks, assign-of-Lacks,
}

find_payload-snoc :
    (key : TerminalWriteKey) (e : Error) (m : Entries)
    → Lacks key m
    → find_payload key (m ++ ((key, e) ∷ [])) ≡ some e
unfolding find_payload same_terminal_write_payload
find_payload-snoc key e [] l = ground (arith, same_resource_refl key, ==_refl key.fingerprint)
find_payload-snoc key e ((k, d) ∷ m) l = ground (arith, find_payload-snoc key e m l.1)

find_payload-recorded :
    (key : TerminalWriteKey) (e : Error) (m : Entries)
    → find_payload key (assign key e (delete_resource key m)) ≡ some e
find_payload-recorded key e m =
    rw (assign-of-Lacks key e (delete_resource key m) (delete_resource-Lacks key m))
      (find_payload-snoc key e (delete_resource key m) (delete_resource-Lacks key m))

-- A write that failed with a terminal error is suppressed the next time: on a live resource, with
-- the same key, `Suppress` returns that error, reports the resource as existing and up to date so
-- that no write is scheduled, sets the condition, and keeps the record.
pub suppress-record_write :
    (m : Entries) (mg : Meta) (key : TerminalWriteKey) (e : Error)
    → is_terminal (some e) ≡ true
    → mg.was_deleted ≡ false
    → suppress (record_write (some m) key (some e)) mg key ≡ record {
      obs = record { resource_exists = true; resource_up_to_date = true };
      error = some e;
      suppressed = true;
      guard = record_write (some m) key (some e);
      managed = set_conditions (reconcile_error (some e)) mg;
    }
unfolding suppress record_write
suppress-record_write m mg key e t live = rw t (ground (arith, find_payload-recorded key e m))

any_resource-of-Lacks :
    (key : TerminalWriteKey) (m : Entries) → Lacks key m → has_resource (some m) key ≡ false
unfolding has_resource
any_resource-of-Lacks key [] l = refl
any_resource-of-Lacks key ((k, e) ∷ m) l = ground (arith, any_resource-of-Lacks key m l.1)

-- After `Clear`, and after a `Suppress` that lets the write through, whether because the
-- resource is being deleted or because the payload has changed, `HasResource` finds nothing.
has_resource-forgotten :
    (g : Guard) (mg : Meta) (key : TerminalWriteKey)
    → (has_resource (clear g key) key ≡ false)
      × ((suppress g mg key).suppressed ≡ false
          → has_resource (suppress g mg key).guard key ≡ false)
unfolding clear suppress has_resource
has_resource-forgotten none mg key = (refl, λ _. refl)
has_resource-forgotten (some m) mg key = (
  any_resource-of-Lacks key (delete_resource key m) (delete_resource-Lacks key m),
  λ h.
      ground
        (arith, any_resource-of-Lacks key (delete_resource key m) (delete_resource-Lacks key m)),
)

find_payload-of-has_resource :
    (m : Entries) (key : TerminalWriteKey)
    → has_resource (some m) key ≡ false
    → find_payload key m ≡ none
unfolding has_resource find_payload same_terminal_write_payload
find_payload-of-has_resource [] key h = refl
find_payload-of-has_resource ((k, e) ∷ m) key h = ground (arith, find_payload-of-has_resource m key)

-- `HasResource` is a sound fast check: where it says no, `Suppress` lets the write through.
has_resource-suppress :
    (g : Guard) (mg : Meta) (key : TerminalWriteKey)
    → has_resource g key ≡ false
    → ((suppress g mg key).suppressed ≡ false) × ((suppress g mg key).managed ≡ mg)
unfolding suppress
has_resource-suppress none mg key h = (refl, refl)
has_resource-suppress (some m) mg key h = (
  ground (arith, find_payload-of-has_resource m key h),
  ground (arith, find_payload-of-has_resource m key h),
)

abbrev key_of : (sum : String → String) → Meta → String → String → TerminalWriteKey
key_of sum mg gvk h = record {
  gvk = gvk;
  uid = mg.uid;
  namespace = mg.namespace;
  name = mg.name;
  fingerprint = sum h;
}

new_terminal_write_key-eq-ok :
    (sum : String → String) (mg : Meta) (gvk : String) (ps : List Part) {a : TerminalWriteKey}
    → new_terminal_write_key sum mg gvk ps ≡ ok a
    → (h : String) × (write_parts "" ps ≡ ok h) × (a ≡ key_of sum mg gvk h)
unfolding new_terminal_write_key
new_terminal_write_key-eq-ok sum mg gvk ps h = elim (Result-cases (write_parts "" ps)) [
  | inl (x, e) ↦ (x, e, ground (arith, e))
  | inr (x, e) ↦ absurd (ground (arith, e))
]

-- Two writes of one resource have the same key exactly if the same bytes went into their
-- fingerprints, as long as the hash function has no collision.
pub same_payload-of-parts :
    (sum : String → String) (mg : Meta) (gvk : String) (ps qs : List Part) {a b : TerminalWriteKey}
    → ((x y : String) → sum x ≡ sum y → x ≡ y)
    → new_terminal_write_key sum mg gvk ps ≡ ok a
    → new_terminal_write_key sum mg gvk qs ≡ ok b
    → (same_terminal_write_payload a b ≡ true) ↔ (write_parts "" ps ≡ write_parts "" qs)
unfolding new_terminal_write_key same_terminal_write_payload
same_payload-of-parts sum mg gvk ps qs {a} {b} inj ha hb =
    let (x, hx, ka) = new_terminal_write_key-eq-ok sum mg gvk ps ha in
    let (y, hy, kb) = new_terminal_write_key-eq-ok sum mg gvk qs hb in
    rw (hx, hy, ka, kb)
      (
        λ s. ap ok (inj x y (ground (arith, eq_iff (sum x) (sum y)))),
        λ e. ground (arith, same_resource_refl (key_of sum mg gvk y), eq_iff (sum x) (sum y), e),
      )
