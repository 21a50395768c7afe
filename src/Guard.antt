-- ===== src/Guard.antt =====
-- internal/controller/base/terminal_write_guard.go: the memory of terminal write failures. The map
-- of entries is an association list, in the order in which a range loop would meet them; `none`
-- is a nil guard. The mutex makes each method one step. SHA-256 and the two encoders are
-- parameters.
pub mod Invariant
mod View
pub mod Keys
pub mod Resource
mod Tests
use provider_crossplane_akui.Common.{
  Result, ok, ◌>>=◌, if◌then◌else◌, ◌==◌, nonempty, String, ◌<>◌, Bool, true, false, not, ◌&&◌,
  ◌||◌, Option, none, some, List, [], ◌∷◌,
}
use provider_crossplane_akui.Reason.{Error, Err, is_terminal}
use provider_crossplane_akui.Managed.{
  reconcile_error, Meta, set_conditions, Observation, no_observation,
}

pub record TerminalWriteKey : Type 0 where
  pub gvk : String
  pub uid : String
  pub namespace : String
  pub name : String
  pub fingerprint : String

-- A part of a fingerprint: its Go type as `%T` prints it, and what its encoder returns,
-- `proto.Marshal` for a message and `json.Marshal` for any other value.
pub data Part : Type 0 where
  message : String → Result Error String → Part
  value : String → Result Error String → Part

-- The bytes written to the hash so far, with those of the part. `json.Encoder` ends a value by a
-- newline.
unfoldable pub write_terminal_fingerprint_part : String → Part → Result Error String
write_terminal_fingerprint_part h (message type b) =
    b >>= λ bytes. ok (h <> type <> "\n" <> bytes <> "\n")
write_terminal_fingerprint_part h (value type b) =
    b >>= λ bytes. ok (h <> type <> "\n" <> bytes <> "\n")

unfoldable pub write_parts : String → List Part → Result Error String
unfolding write_terminal_fingerprint_part
write_parts h [] = ok h
write_parts h (p ∷ ps) = write_terminal_fingerprint_part h p >>= λ h'. write_parts h' ps

-- `sum` is the hexadecimal SHA-256 of a text.
unfoldable pub new_terminal_write_key :
    (sum : String → String) → Meta → String → List Part → Result Error TerminalWriteKey
unfolding write_parts
new_terminal_write_key sum mg gvk parts = write_parts "" parts >>= λ h. ok (record {
  gvk = gvk;
  uid = mg.uid;
  namespace = mg.namespace;
  name = mg.name;
  fingerprint = sum h;
})

unfoldable pub new_terminal_write_resource_key : Meta → String → TerminalWriteKey
new_terminal_write_resource_key mg gvk = record {
  gvk = gvk;
  uid = mg.uid;
  namespace = mg.namespace;
  name = mg.name;
  fingerprint = "";
}

abbrev pub Entries : Type 0
Entries = List (TerminalWriteKey × Error)

abbrev pub Guard : Type 0
Guard = Option Entries

-- NewTerminalWriteGuard
abbrev pub new_terminal_write_guard : Guard
new_terminal_write_guard = some []

unfoldable pub same_terminal_write_resource : TerminalWriteKey → TerminalWriteKey → Bool
same_terminal_write_resource a b =
    if not (a.gvk == b.gvk)
    then false
    else if nonempty a.uid && nonempty b.uid
    then a.uid == b.uid
    else a.namespace == b.namespace && a.name == b.name

unfoldable pub same_terminal_write_payload : TerminalWriteKey → TerminalWriteKey → Bool
unfolding same_terminal_write_resource
same_terminal_write_payload a b = same_terminal_write_resource a b && a.fingerprint == b.fingerprint

unfoldable pub delete_resource : TerminalWriteKey → Entries → Entries
delete_resource key [] = []
delete_resource key ((k, e) ∷ m) =
    let rest = delete_resource key m in
    if same_terminal_write_resource k key then rest else (k, e) ∷ rest

-- Equality of keys, as the map has it.
abbrev pub same_key : TerminalWriteKey → TerminalWriteKey → Bool
same_key a b =
    a.gvk == b.gvk
    && (a.uid == b.uid
        && (a.namespace == b.namespace && (a.name == b.name && a.fingerprint == b.fingerprint)))

-- `g.entries[key] = err`
unfoldable pub assign : TerminalWriteKey → Error → Entries → Entries
assign key e [] = (key, e) ∷ []
assign key e ((k, d) ∷ m) = if same_key k key then (k, e) ∷ m else (k, d) ∷ assign key e m

unfoldable pub record_write : Guard → TerminalWriteKey → Err → Guard
record_write none key e = none
record_write (some m) key none = some m
record_write (some m) key (some e) =
    if is_terminal (some e) then some (assign key e (delete_resource key m)) else some m

unfoldable pub clear : Guard → TerminalWriteKey → Guard
clear none key = none
clear (some m) key = some (delete_resource key m)

any_resource : TerminalWriteKey → Entries → Bool
any_resource key [] = false
any_resource key ((k, e) ∷ m) = same_terminal_write_resource k key || any_resource key m

unfoldable pub has_resource : Guard → TerminalWriteKey → Bool
unfolding any_resource
has_resource none key = false
has_resource (some m) key = any_resource key m

-- The loop of `Suppress`: the error of the first entry with the same payload.
unfoldable pub find_payload : TerminalWriteKey → Entries → Err
find_payload key [] = none
find_payload key ((k, e) ∷ m) =
    if same_terminal_write_payload k key then some e else find_payload key m

-- What `Suppress` returns, with the guard and the managed resource that it leaves.
pub record Suppression : Type 0 where
  pub obs : Observation
  pub error : Err
  pub suppressed : Bool
  pub guard : Guard
  pub managed : Meta

unfoldable pub suppress : Guard → Meta → TerminalWriteKey → Suppression
suppress none mg key = record {
  obs = no_observation;
  error = none;
  suppressed = false;
  guard = none;
  managed = mg;
}
suppress (some m) mg key =
    let miss : Suppression = record {
      obs = no_observation;
      error = none;
      suppressed = false;
      guard = some (delete_resource key m);
      managed = mg;
    } in
    if mg.was_deleted then miss else elim (find_payload key m) [
      | none ↦ miss
      | some e ↦ record {
        obs = record { resource_exists = true; resource_up_to_date = true };
        error = some e;
        suppressed = true;
        guard = some m;
        managed = set_conditions (reconcile_error (some e)) mg;
      }
    ]
