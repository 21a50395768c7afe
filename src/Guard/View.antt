-- ===== src/Guard/View.antt =====
-- The guard refines a map from resources to one fingerprint and error each, where every resource
-- has a UID, as a persisted one has.
use provider_crossplane_akui.Common.{
  if◌then◌else◌, ◌==◌, nonempty, Bool-cases, Option-cases, is_some, String, ◌≡◌, refl, inl, inr,
  Bool, true, false, ◌&&◌, Option, none, some, [], ◌∷◌, ◌++◌, arith, eq_iff,
}
use provider_crossplane_akui.Reason.{terminal, Error, Err, is_kind, is_terminal}
use provider_crossplane_akui.Managed.{Meta}
use provider_crossplane_akui.Guard.{
  TerminalWriteKey, Entries, Guard, same_terminal_write_resource, same_terminal_write_payload,
  delete_resource, record_write, clear, find_payload, suppress,
}
use provider_crossplane_akui.Guard.Invariant.{
  Lacks, IsDistinct, delete_resource-Lacks, assign-of-Lacks,
}

-- Every key has a UID.
abbrev IsKeyed : Entries → Type 0
IsKeyed [] = Unit
IsKeyed ((k, e) ∷ m) = (nonempty k.uid ≡ true) × IsKeyed m

-- The abstract map: by kind and UID, the fingerprint and the error of the failed write.
abbrev pub View : Type 0
View = String → String → Option (String × Error)

abbrev view : Entries → View
view [] g u = none
view ((k, e) ∷ m) g u = if k.gvk == g && k.uid == u then some (k.fingerprint, e) else view m g u

abbrev pub view_guard : Guard → View
view_guard none g u = none
view_guard (some m) g u = view m g u

abbrev is_for : TerminalWriteKey → String → String → Bool
is_for key g u = key.gvk == g && key.uid == u

-- What the map answers for a write: its error, if the fingerprint is the same.
abbrev pub answer : Option (String × Error) → String → Err
answer none fp = none
answer (some (f, e)) fp = if f == fp then some e else none

same_resource-of-keyed :
    (k key : TerminalWriteKey)
    → nonempty k.uid ≡ true
    → nonempty key.uid ≡ true
    → same_terminal_write_resource k key ≡ (k.gvk == key.gvk && k.uid == key.uid)
unfolding same_terminal_write_resource
same_resource-of-keyed k key h j = ground arith

view-delete_resource :
    (key : TerminalWriteKey) (m : Entries) (g u : String)
    → nonempty key.uid ≡ true
    → IsKeyed m
    → view (delete_resource key m) g u ≡ (if is_for key g u then none else view m g u)
unfolding delete_resource
view-delete_resource key [] g u h hm = ground arith
view-delete_resource key ((k, e) ∷ m) g u h hm = ground (
  arith,
  same_resource-of-keyed k key hm.0 h,
  view-delete_resource key m g u h hm.1,
  eq_iff k.gvk key.gvk,
  eq_iff k.uid key.uid,
  eq_iff k.gvk g,
  eq_iff k.uid u,
  eq_iff key.gvk g,
  eq_iff key.uid u,
)

view-snoc :
    (key : TerminalWriteKey) (e : Error) (m : Entries) (g u : String)
    → view (m ++ ((key, e) ∷ [])) g u ≡ elim (view m g u) [
      | none ↦ if is_for key g u then some (key.fingerprint, e) else none
      | some x ↦ some x
    ]
view-snoc key e [] g u = ground arith
view-snoc key e ((k, d) ∷ m) g u = ground (arith, view-snoc key e m g u)

-- Recording a terminal error puts the fingerprint and the error of the write in the place of what
-- the map held for the resource, and leaves every other resource alone; any other error is not
-- recorded.
pub view-record_write :
    (m : Entries) (key : TerminalWriteKey) (e : Error) (g u : String)
    → IsKeyed m
    → nonempty key.uid ≡ true
    → view_guard (record_write (some m) key (some e)) g u
      ≡ (if is_terminal (some e) && is_for key g u then some (key.fingerprint, e) else view m g u)
unfolding record_write
view-record_write m key e g u hm h = elim (Bool-cases (is_kind terminal e)) [
  | inl t ↦ rw t (
      rw (assign-of-Lacks key e (delete_resource key m) (delete_resource-Lacks key m)) (
        ground (
          arith,
          view-snoc key e (delete_resource key m) g u,
          view-delete_resource key m g u h hm,
        )))
  | inr t ↦ rw t
]

-- Clearing removes what the map holds for the resource of the key and nothing else.
view-clear :
    (m : Entries) (key : TerminalWriteKey) (g u : String)
    → IsKeyed m
    → nonempty key.uid ≡ true
    → view_guard (clear (some m) key) g u ≡ (if is_for key g u then none else view m g u)
unfolding clear
view-clear m key g u hm h = view-delete_resource key m g u h hm

view-of-Lacks :
    (key : TerminalWriteKey) (m : Entries)
    → nonempty key.uid ≡ true
    → IsKeyed m
    → Lacks key m
    → view m key.gvk key.uid ≡ none
view-of-Lacks key [] h hm l = refl
view-of-Lacks key ((k, e) ∷ m) h hm l =
    ground (arith, same_resource-of-keyed k key hm.0 h, view-of-Lacks key m h hm.1 l.1)

find_payload-of-Lacks :
    (key : TerminalWriteKey) (m : Entries) → Lacks key m → find_payload key m ≡ none
unfolding find_payload same_terminal_write_payload
find_payload-of-Lacks key [] l = refl
find_payload-of-Lacks key ((k, e) ∷ m) l = ground (arith, find_payload-of-Lacks key m l.1)

Lacks-of-same :
    (k key : TerminalWriteKey) (m : Entries)
    → nonempty k.uid ≡ true
    → nonempty key.uid ≡ true
    → IsKeyed m
    → same_terminal_write_resource k key ≡ true
    → Lacks k m
    → Lacks key m
Lacks-of-same k key [] h j hm s l = tt
Lacks-of-same k key ((i, e) ∷ m) h j hm s l = (
  ground (
    arith,
    same_resource-of-keyed k key h j,
    same_resource-of-keyed i key hm.0 j,
    same_resource-of-keyed i k hm.0 h,
    eq_iff k.gvk key.gvk,
    eq_iff k.uid key.uid,
  ),
  Lacks-of-same k key m h j hm.1 s l.1,
)

find_payload-eq-answer :
    (key : TerminalWriteKey) (m : Entries)
    → nonempty key.uid ≡ true
    → IsKeyed m
    → IsDistinct m
    → find_payload key m ≡ answer (view m key.gvk key.uid) key.fingerprint
unfolding find_payload same_terminal_write_payload
find_payload-eq-answer key [] h hm d = refl
find_payload-eq-answer key ((k, e) ∷ m) h hm d =
    elim (Bool-cases (same_terminal_write_resource k key)) [
      | inl s ↦ ground (
        arith,
        same_resource-of-keyed k key hm.0 h,
        find_payload-of-Lacks key m (Lacks-of-same k key m hm.0 h hm.1 s d.0),
      )
      | inr s ↦
          ground
            (arith, same_resource-of-keyed k key hm.0 h, find_payload-eq-answer key m h hm.1 d.1)
    ]

-- On a live resource `Suppress` answers as the map does: it returns the recorded error exactly if
-- the recorded fingerprint is that of the key, and then keeps the map; otherwise it forgets the
-- resource and keeps the others.
pub view-suppress :
    (m : Entries) (mg : Meta) (key : TerminalWriteKey) (g u : String)
    → IsKeyed m
    → IsDistinct m
    → nonempty key.uid ≡ true
    → mg.was_deleted ≡ false
    → ((suppress (some m) mg key).error ≡ answer (view m key.gvk key.uid) key.fingerprint)
      × ((suppress (some m) mg key).suppressed
          ≡ is_some (answer (view m key.gvk key.uid) key.fingerprint))
      × (view_guard (suppress (some m) mg key).guard g u ≡ (
          if is_some (answer (view m key.gvk key.uid) key.fingerprint)
          then view m g u
          else if is_for key g u
          then none
          else view m g u))
unfolding suppress
view-suppress m mg key g u hm d h live =
    rw (live, find_payload-eq-answer key m h hm d)
      (elim (Option-cases (answer (view m key.gvk key.uid) key.fingerprint)) [
        | inl a ↦ rw a (refl, refl, view-delete_resource key m g u h hm)
        | inr (e, a) ↦ rw a (refl, refl, refl)
      ])
