-- ===== src/Guard/Resource.antt =====
-- Keys of one resource: the guard looks at their resource part only, save where it compares
-- payloads.
use provider_crossplane_akui.Common.{
  ok, Result-cases, Bool-cases, subst, ◌==◌, String, ◌≡◌, refl, sym, ◌∙◌, inl, inr, true, false,
  none, some, List, [], ◌∷◌, ◌++◌, arith,
}
use provider_crossplane_akui.Reason.{Error, is_terminal}
use provider_crossplane_akui.Managed.{Meta, no_observation}
use provider_crossplane_akui.Guard.{
  TerminalWriteKey, Part, write_parts, new_terminal_write_key, new_terminal_write_resource_key,
  Entries, Guard, same_terminal_write_resource, delete_resource, record_write, clear, has_resource,
  same_terminal_write_payload, find_payload, suppress,
}
use provider_crossplane_akui.Guard.Invariant.{
  same_resource_refl, Lacks, delete_resource-Lacks, assign-of-Lacks,
}

-- Two keys with the same resource part.
abbrev pub Alike : TerminalWriteKey → TerminalWriteKey → Type 0
Alike a b = (a.gvk ≡ b.gvk) × (a.uid ≡ b.uid) × (a.namespace ≡ b.namespace) × (a.name ≡ b.name)

same_resource-Alike :
    (k a b : TerminalWriteKey)
    → Alike a b
    → same_terminal_write_resource k a ≡ same_terminal_write_resource k b
unfolding same_terminal_write_resource
same_resource-Alike k a b h = ground arith

Lacks-Alike : (a b : TerminalWriteKey) (m : Entries) → Alike a b → Lacks a m → Lacks b m
Lacks-Alike a b [] h l = tt
Lacks-Alike a b ((k, e) ∷ m) h l =
    (sym (same_resource-Alike k a b h) ∙ l.0, Lacks-Alike a b m h l.1)

has_resource-of-Lacks :
    (key : TerminalWriteKey) (m : Entries) → Lacks key m → has_resource (some m) key ≡ false
unfolding has_resource
has_resource-of-Lacks key [] l = refl
has_resource-of-Lacks key ((k, e) ∷ m) l = ground (arith, has_resource-of-Lacks key m l.1)

-- Clearing by one key clears by any other of the resource.
pub has_resource-clear-Alike :
    (g : Guard) (a b : TerminalWriteKey) → Alike a b → has_resource (clear g a) b ≡ false
unfolding clear has_resource
has_resource-clear-Alike none a b h = refl
has_resource-clear-Alike (some m) a b h =
    has_resource-of-Lacks b _ (Lacks-Alike a b _ h (delete_resource-Lacks a m))

has_resource-snoc :
    (a b : TerminalWriteKey) (e : Error) (m : Entries)
    → Alike a b
    → has_resource (some (m ++ ((a, e) ∷ []))) b ≡ true
unfolding has_resource
has_resource-snoc a b e [] h = ground (arith, same_resource-Alike a a b h, same_resource_refl a)
has_resource-snoc a b e ((k, d) ∷ m) h = ground (arith, has_resource-snoc a b e m h)

-- After a terminal error is recorded, `HasResource` finds the resource.
pub has_resource-record_write :
    (m : Entries) (a b : TerminalWriteKey) (e : Error)
    → is_terminal (some e) ≡ true
    → Alike a b
    → has_resource (record_write (some m) a (some e)) b ≡ true
unfolding record_write
has_resource-record_write m a b e t h =
    rw (t, assign-of-Lacks a e (delete_resource a m) (delete_resource-Lacks a m))
      (has_resource-snoc a b e (delete_resource a m) h)

-- The two keys of a managed resource are alike.
pub new_terminal_write_key-Alike :
    (sum : String → String) (mg : Meta) (gvk : String) (ps : List Part) (key : TerminalWriteKey)
    → new_terminal_write_key sum mg gvk ps ≡ ok key
    → Alike key (new_terminal_write_resource_key mg gvk)
unfolding new_terminal_write_key new_terminal_write_resource_key
new_terminal_write_key-Alike sum mg gvk ps key h = elim (Result-cases (write_parts "" ps)) [
  | inl (x, e) ↦ (ground (arith, e), ground (arith, e), ground (arith, e), ground (arith, e))
  | inr (x, e) ↦ absurd (ground (arith, e))
]

find_payload-snoc-other :
    (a b : TerminalWriteKey) (e : Error) (m : Entries)
    → Alike a b
    → (a.fingerprint == b.fingerprint) ≡ false
    → Lacks a m
    → find_payload b (m ++ ((a, e) ∷ [])) ≡ none
unfolding find_payload same_terminal_write_payload
find_payload-snoc-other a b e [] h f l = ground (arith, f)
find_payload-snoc-other a b e ((k, d) ∷ m) h f l =
    ground (arith, sym (same_resource-Alike k a b h) ∙ l.0, find_payload-snoc-other a b e m h f l.1)

-- A `Suppress` of another payload lets the write through and clears what was recorded.
pub suppress-other_payload :
    (m : Entries) (mg : Meta) (a b : TerminalWriteKey) (e : Error)
    → is_terminal (some e) ≡ true
    → Alike a b
    → (a.fingerprint == b.fingerprint) ≡ false
    → suppress (record_write (some m) a (some e)) mg b ≡ record {
      obs = no_observation;
      error = none;
      suppressed = false;
      guard = clear (record_write (some m) a (some e)) b;
      managed = mg;
    }
unfolding suppress record_write clear
suppress-other_payload m mg a b e t h f =
    let d = delete_resource a m in
    let found =
      subst (λ (n : Entries). find_payload b n ≡ none)
        (sym (assign-of-Lacks a e d (delete_resource-Lacks a m)))
        (find_payload-snoc-other a b e d h f (delete_resource-Lacks a m)) in
    rw t (elim (Bool-cases mg.was_deleted) [
      | inl y ↦ ground (arith, y)
      | inr n ↦ ground (arith, n, found)
    ])
