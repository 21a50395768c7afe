-- ===== src/Guard/Invariant.antt =====
-- A guard holds at most one entry for a resource, and what is recorded is what is suppressed.
use provider_crossplane_akui.Common.{
  ==_refl, Bool-cases, Option-cases, ◌≡◌, refl, ◌∙◌, inl, inr, true, false, none, some, [], ◌∷◌,
  ◌++◌, arith, eq_iff,
}
use provider_crossplane_akui.Reason.{terminal, Error, Err, is_kind}
use provider_crossplane_akui.Managed.{Meta}
use provider_crossplane_akui.Guard.{
  TerminalWriteKey, Entries, Guard, new_terminal_write_guard, same_terminal_write_resource,
  delete_resource, same_key, assign, record_write, clear, find_payload, suppress,
}

-- Sameness of resources is reflexive and symmetric (it is not transitive, where a UID is empty).
pub same_resource_refl : (a : TerminalWriteKey) → same_terminal_write_resource a a ≡ true
unfolding same_terminal_write_resource
same_resource_refl a =
    ground (arith, ==_refl a.gvk, ==_refl a.uid, ==_refl a.namespace, ==_refl a.name)

same_resource_comm :
    (a b : TerminalWriteKey) → same_terminal_write_resource a b ≡ same_terminal_write_resource b a
unfolding same_terminal_write_resource
same_resource_comm a b = ground (
  arith,
  eq_iff a.gvk b.gvk,
  eq_iff b.gvk a.gvk,
  eq_iff a.uid b.uid,
  eq_iff b.uid a.uid,
  eq_iff a.namespace b.namespace,
  eq_iff b.namespace a.namespace,
  eq_iff a.name b.name,
  eq_iff b.name a.name,
)

-- No entry is for the resource of the key.
abbrev pub Lacks : TerminalWriteKey → Entries → Type 0
Lacks key [] = Unit
Lacks key ((k, e) ∷ m) = (same_terminal_write_resource k key ≡ false) × Lacks key m

-- No two entries are for the same resource.
abbrev pub IsDistinct : Entries → Type 0
IsDistinct [] = Unit
IsDistinct ((k, e) ∷ m) = Lacks k m × IsDistinct m

abbrev GuardIsDistinct : Guard → Type 0
GuardIsDistinct none = Unit
GuardIsDistinct (some m) = IsDistinct m

pub delete_resource-Lacks :
    (key : TerminalWriteKey) (m : Entries) → Lacks key (delete_resource key m)
unfolding delete_resource
delete_resource-Lacks key [] = tt
delete_resource-Lacks key ((k, e) ∷ m) = elim (Bool-cases (same_terminal_write_resource k key)) [
  | inl h ↦ rw h (delete_resource-Lacks key m)
  | inr h ↦ rw h (h, delete_resource-Lacks key m)
]

delete_resource-keeps_Lacks :
    (key j : TerminalWriteKey) (m : Entries) → Lacks j m → Lacks j (delete_resource key m)
unfolding delete_resource
delete_resource-keeps_Lacks key j [] h = tt
delete_resource-keeps_Lacks key j ((k, e) ∷ m) h =
    elim (Bool-cases (same_terminal_write_resource k key)) [
      | inl s ↦ rw s (delete_resource-keeps_Lacks key j m h.1)
      | inr s ↦ rw s (h.0, delete_resource-keeps_Lacks key j m h.1)
    ]

delete_resource-IsDistinct :
    (key : TerminalWriteKey) (m : Entries) → IsDistinct m → IsDistinct (delete_resource key m)
unfolding delete_resource
delete_resource-IsDistinct key [] h = tt
delete_resource-IsDistinct key ((k, e) ∷ m) h =
    elim (Bool-cases (same_terminal_write_resource k key)) [
      | inl s ↦ rw s (delete_resource-IsDistinct key m h.1)
      | inr s ↦ rw s (delete_resource-keeps_Lacks key k m h.0, delete_resource-IsDistinct key m h.1)
    ]

same_key→same_resource :
    (a b : TerminalWriteKey) → same_key a b ≡ true → same_terminal_write_resource a b ≡ true
unfolding same_terminal_write_resource
same_key→same_resource a b h = ground arith

-- Where no entry is for the resource, the assignment adds one at the end.
pub assign-of-Lacks :
    (key : TerminalWriteKey) (e : Error) (m : Entries)
    → Lacks key m
    → assign key e m ≡ m ++ ((key, e) ∷ [])
unfolding assign
assign-of-Lacks key e [] h = refl
assign-of-Lacks key e ((k, d) ∷ m) h = elim (Bool-cases (same_key k key)) [
  | inl s ↦ cc (same_key→same_resource k key s, h.0)
  | inr s ↦ rw s (rw (assign-of-Lacks key e m h.1))
]

Lacks-snoc :
    (j key : TerminalWriteKey) (e : Error) (m : Entries)
    → Lacks j m
    → same_terminal_write_resource key j ≡ false
    → Lacks j (m ++ ((key, e) ∷ []))
Lacks-snoc j key e [] h s = (s, tt)
Lacks-snoc j key e (_ ∷ m) h s = (h.0, Lacks-snoc j key e m h.1 s)

snoc-IsDistinct :
    (key : TerminalWriteKey) (e : Error) (m : Entries)
    → Lacks key m
    → IsDistinct m
    → IsDistinct (m ++ ((key, e) ∷ []))
snoc-IsDistinct key e [] l h = (tt, tt)
snoc-IsDistinct key e ((k, d) ∷ m) l h =
    (Lacks-snoc k key e m h.0 (same_resource_comm key k ∙ l.0), snoc-IsDistinct key e m l.1 h.1)

record_entry-IsDistinct :
    (key : TerminalWriteKey) (e : Error) (m : Entries)
    → IsDistinct m
    → IsDistinct (assign key e (delete_resource key m))
record_entry-IsDistinct key e m h =
    rw (assign-of-Lacks key e (delete_resource key m) (delete_resource-Lacks key m))
      (snoc-IsDistinct key e _ (delete_resource-Lacks key m) (delete_resource-IsDistinct key m h))

record_write-IsDistinct :
    (g : Guard) (key : TerminalWriteKey) (e : Err)
    → GuardIsDistinct g
    → GuardIsDistinct (record_write g key e)
unfolding record_write
record_write-IsDistinct none key e h = tt
record_write-IsDistinct (some m) key none h = h
record_write-IsDistinct (some m) key (some e) h = elim (Bool-cases (is_kind terminal e)) [
  | inl t ↦ rw t (record_entry-IsDistinct key e m h)
  | inr t ↦ rw t h
]

clear-IsDistinct :
    (g : Guard) (key : TerminalWriteKey) → GuardIsDistinct g → GuardIsDistinct (clear g key)
unfolding clear
clear-IsDistinct none key h = tt
clear-IsDistinct (some m) key h = delete_resource-IsDistinct key m h

suppress-IsDistinct :
    (g : Guard) (mg : Meta) (key : TerminalWriteKey)
    → GuardIsDistinct g
    → GuardIsDistinct (suppress g mg key).guard
unfolding suppress
suppress-IsDistinct none mg key h = tt
suppress-IsDistinct (some m) mg key h = elim (Bool-cases mg.was_deleted) [
  | inl d ↦ rw d (delete_resource-IsDistinct key m h)
  | inr d ↦ rw d (elim (Option-cases (find_payload key m)) [
    | inl f ↦ rw f (delete_resource-IsDistinct key m h)
    | inr (e, f) ↦ rw f h
  ])
]

-- The methods of a guard as steps of a controller.
pub data Step : Guard → Guard → Type 0 where
  recorded : (g : Guard) (key : TerminalWriteKey) (e : Err) → Step g (record_write g key e)
  cleared : (g : Guard) (key : TerminalWriteKey) → Step g (clear g key)
  observed : (g : Guard) (mg : Meta) (key : TerminalWriteKey) → Step g (suppress g mg key).guard

pub data Reach (g : Guard) : Guard → Type 0 where
  here : Reach g g
  next : {h k : Guard} → Reach g h → Step h k → Reach g k

Step-IsDistinct : {g h : Guard} → Step g h → GuardIsDistinct g → GuardIsDistinct h
Step-IsDistinct (recorded g key e) d = record_write-IsDistinct g key e d
Step-IsDistinct (cleared g key) d = clear-IsDistinct g key d
Step-IsDistinct (observed g mg key) d = suppress-IsDistinct g mg key d

Reach-IsDistinct_from : {g h : Guard} → GuardIsDistinct g → Reach g h → GuardIsDistinct h
Reach-IsDistinct_from d here = d
Reach-IsDistinct_from d (next r s) = Step-IsDistinct s (Reach-IsDistinct_from d r)

-- Whatever controllers record, clear and observe in whatever order, a guard that began empty
-- never holds two entries for one resource.
pub Reach-IsDistinct : {g : Guard} → Reach new_terminal_write_guard g → GuardIsDistinct g
Reach-IsDistinct r = Reach-IsDistinct_from tt r
