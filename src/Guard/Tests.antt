-- ===== src/Guard/Tests.antt =====
-- A guard that remembers one refused write.
use provider_crossplane_akui.Common.{
  ok, if◌then◌else◌, String, ◌≡◌, refl, true, false, ◌&&◌, none, some, List, [], ◌∷◌,
}
use provider_crossplane_akui.Reason.{terminal, Error, new, marked, is_kind, is_terminal}
use provider_crossplane_akui.Managed.{reconcile_error, Meta, set_conditions}
use provider_crossplane_akui.Guard.{
  TerminalWriteKey, Part, value, write_terminal_fingerprint_part, write_parts,
  new_terminal_write_key, Entries, new_terminal_write_guard, same_terminal_write_resource,
  delete_resource, assign, record_write, has_resource, suppress,
}
use provider_crossplane_akui.Guard.Invariant.{
  IsDistinct, recorded, Reach, here, next, Reach-IsDistinct,
}
use provider_crossplane_akui.Guard.View.{view_guard, view-record_write, view-suppress}
use provider_crossplane_akui.Guard.Keys.{suppress-record_write}

abbrev cluster : Meta
cluster = record {
  uid = "u1";
  namespace = "team";
  name = "east";
  external_name = "east";
  was_deleted = false;
  generation = 2;
  observed_generation = 1;
  conditions = [];
}

abbrev key_of_payload : String → TerminalWriteKey
key_of_payload fp = record {
  gvk = "Cluster";
  uid = "u1";
  namespace = "team";
  name = "east";
  fingerprint = fp;
}

abbrev old_key : TerminalWriteKey
old_key = key_of_payload "f0"

abbrev key : TerminalWriteKey
key = key_of_payload "f1"

abbrev refused : Error
refused = marked terminal (new "unknown field")

abbrev old_entries : Entries
old_entries = (old_key, refused) ∷ []

refused_is_terminal : is_terminal (some refused) ≡ true
unfolding is_kind
refused_is_terminal = refl

replaces_payload : record_write (some old_entries) key (some refused) ≡ some ((key, refused) ∷ [])
unfolding record_write delete_resource same_terminal_write_resource assign is_kind
replaces_payload = refl

twice_recorded : Reach new_terminal_write_guard (some ((key, refused) ∷ []))
unfolding record_write delete_resource same_terminal_write_resource assign is_kind
twice_recorded =
    next (next here (recorded _ old_key (some refused))) (recorded _ key (some refused))

Reach-IsDistinct_example : IsDistinct ((key, refused) ∷ [])
Reach-IsDistinct_example = Reach-IsDistinct twice_recorded

suppress-record_write_example :
    suppress (record_write (some old_entries) key (some refused)) cluster key ≡ record {
      obs = record { resource_exists = true; resource_up_to_date = true };
      error = some refused;
      suppressed = true;
      guard = record_write (some old_entries) key (some refused);
      managed = set_conditions (reconcile_error (some refused)) cluster;
    }
suppress-record_write_example =
    suppress-record_write old_entries cluster key refused refused_is_terminal refl

view-record_write_example :
    view_guard (record_write (some old_entries) key (some refused)) "Cluster" "u1"
    ≡ (if is_terminal (some refused) && true then some ("f1", refused) else some ("f0", refused))
view-record_write_example = view-record_write old_entries key refused "Cluster" "u1" (refl, tt) refl

view-suppress_example :
    ((suppress (some old_entries) cluster key).error ≡ none)
    × ((suppress (some old_entries) cluster key).suppressed ≡ false)
    × (view_guard (suppress (some old_entries) cluster key).guard "Cluster" "u1" ≡ none)
view-suppress_example =
    view-suppress old_entries cluster key "Cluster" "u1" (refl, tt) (tt, tt) refl refl

abbrev other_key : TerminalWriteKey
other_key = record key { uid = "u2" }

other_is_absent : has_resource (some old_entries) other_key ≡ false
unfolding has_resource same_terminal_write_resource
other_is_absent = refl

abbrev parts : String → List Part
parts name = value "string" (ok name) ∷ []

keyed :
    new_terminal_write_key (λ s. s) cluster "Cluster" (parts "a")
    ≡ ok (record key { fingerprint = "string\na\n" })
unfolding new_terminal_write_key write_parts write_terminal_fingerprint_part
keyed = refl

keyed' :
    new_terminal_write_key (λ s. s) cluster "Cluster" (parts "b")
    ≡ ok (record key { fingerprint = "string\nb\n" })
unfolding new_terminal_write_key write_parts write_terminal_fingerprint_part
keyed' = refl
