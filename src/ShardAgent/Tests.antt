-- ===== src/ShardAgent/Tests.antt =====
-- A gateway with one agent that holds the pin, and one that refuses every patch.
use provider_crossplane_akui.Common.{
  ok, err, if◌then◌else◌, ◌==◌, zero, String, ◌≡◌, refl, sym, true, false, none, some, [],
}
use provider_crossplane_akui.Reason.{
  permission_denied_code, terminal, not_found, Error, new, marked, foreign, text, is_kind,
  is_terminal, is_not_found, ErrorApi, is_retryable_grpc, is_retryable, classify_apply_error,
}
use provider_crossplane_akui.Managed.{Meta, no_observation}
use provider_crossplane_akui.Guard.{
  TerminalWriteKey, write_terminal_fingerprint_part, write_parts, new_terminal_write_key,
}
use provider_crossplane_akui.Json.{Json, lookup, as_string, as_map}
use provider_crossplane_akui.ShardAgent.{
  AgentApi, AgentWorld, shard_agent_gvk, pin_body, resolve_kargo_id, resolve_desired_agent_id,
  agent_write_key, observe_agent, send_pin, patch_pin, create_agent, update_agent, delete_agent,
}
use provider_crossplane_akui.ShardAgent.Pinned.{IsPinning}
use provider_crossplane_akui.ShardAgent.Settled.{IsSettled, writes_pin, delete_agent-settles}
use provider_crossplane_akui.ShardAgent.Refused.{RefusedPin, IsSilencedPin, refused_pin-suppressed}

abbrev errors : ErrorApi
errors = record {
  from_error = λ e. elim e [
    | foreign zero m ↦ some (record { code = permission_denied_code; message = m })
    | _ ↦ none
  ];
  is_kube_not_found = λ _. false;
  is_forbidden = λ _. false;
  is_unauthorized = λ _. false;
}

-- The pin that a patch carries.
pin_of : Json → String
pin_of body = elim (as_map (some body)) [
  | none ↦ ""
  | some top ↦ elim (as_map (lookup "spec" top)) [
    | none ↦ ""
    | some spec ↦ elim (as_string (lookup "defaultShardAgent" spec)) [ none ↦ "" | some id ↦ id ]
  ]
]

abbrev pinning : AgentApi String
pinning = record {
  errors = errors;
  get_kargo_instance_by_id = λ s id. (ok s, s);
  patch_kargo_instance = λ s id body. (none, pin_of body);
  get_kargo_instance_agent =
      λ s id n. (if n == "east" then ok "a-1" else err (marked not_found (new "no agent")), s);
  kube_kargo_id = λ ns n. ok "k-1";
  new_struct = λ body. ok body;
  encode = λ body. ok "json";
  sum = λ s. s;
}

abbrev denied : Error
denied = foreign 0 "not allowed"

abbrev refusing : AgentApi String
refusing = record pinning { patch_kargo_instance = λ s id body. (some denied, s) }

abbrev meta : Meta
meta = record {
  uid = "u1";
  namespace = "team";
  name = "pin";
  external_name = "pin";
  was_deleted = false;
  generation = 2;
  observed_generation = 1;
  conditions = [];
}

abbrev world : Meta → AgentWorld String
world m = record {
  remote = "";
  guard = some [];
  mg = record {
    meta = m;
    kargo_instance_id = "";
    kargo_instance_ref = some "kargo";
    agent_name = "east";
    at_agent_name = "";
    at_kargo_instance_id = "";
  };
}

pinning_pins : IsPinning pinning
unfolding pin_of lookup
pinning_pins = record {
  pins = λ s id pin body built done. let same : pin_body pin ≡ body = cc in rw (sym same) refl;
  get_keeps = λ s i id n. refl;
  patch_keeps = λ s i id n body. refl;
  agent_keeps = λ s i id m n. refl;
}

writes_pin_example :
    ((create_agent pinning (world meta)).0 ≡ none
      → ("pin" == "") ≡ false
      → IsSettled pinning (create_agent pinning (world meta)).1)
    × ((update_agent pinning (world meta)).0 ≡ none
        → ("pin" == "") ≡ false
        → IsSettled pinning (update_agent pinning (world meta)).1)
writes_pin_example = writes_pin pinning (world meta) pinning_pins refl

update_succeeds : (update_agent pinning (world meta)).0 ≡ none
unfolding update_agent patch_pin send_pin resolve_kargo_id resolve_desired_agent_id agent_write_key
    new_terminal_write_key write_parts write_terminal_fingerprint_part
update_succeeds = refl

abbrev dying : Meta
dying = record meta { was_deleted = true }

agent_is_there :
    (id : String) (e : Error)
    → (resolve_desired_agent_id pinning "" id "east").0 ≡ err e
    → is_not_found (some e) ≡ true
unfolding resolve_desired_agent_id
agent_is_there id e h = absurd (cc (h))

delete_succeeds : (delete_agent pinning (world dying)).0 ≡ none
unfolding delete_agent patch_pin send_pin resolve_kargo_id resolve_desired_agent_id agent_write_key
    new_terminal_write_key write_parts write_terminal_fingerprint_part
delete_succeeds = refl

delete_agent-settles_example :
    ((observe_agent pinning (delete_agent pinning (world dying)).1).obs ≡ no_observation)
    × ((observe_agent pinning (delete_agent pinning (world dying)).1).error ≡ none)
delete_agent-settles_example =
    delete_agent-settles pinning (world dying) pinning_pins refl refl agent_is_there delete_succeeds

abbrev fatal : Error
fatal = marked terminal denied

abbrev pin_key : TerminalWriteKey
pin_key = record {
  gvk = shard_agent_gvk;
  uid = "u1";
  namespace = "team";
  name = "pin";
  fingerprint = "map[string]interface {}\njson\n";
}

resolves : resolve_kargo_id refusing (world meta).mg ≡ ok "k-1"
unfolding resolve_kargo_id
resolves = refl

finds_agent : (resolve_desired_agent_id refusing "" "k-1" "east").0 ≡ ok "a-1"
unfolding resolve_desired_agent_id
finds_agent = refl

finds_agent_again :
    (resolve_desired_agent_id refusing
      (resolve_desired_agent_id refusing "" "k-1" "east").1
      "k-1"
      "east").0
    ≡ ok "a-1"
unfolding resolve_desired_agent_id
finds_agent_again = refl

has_pin_key : agent_write_key refusing meta "k-1" "a-1" ≡ ok pin_key
unfolding agent_write_key new_terminal_write_key write_parts write_terminal_fingerprint_part
has_pin_key = refl

denies_for_good : classify_apply_error errors (some denied) ≡ some fatal
unfolding classify_apply_error is_kind is_retryable is_retryable_grpc text
denies_for_good = refl

fatal_is_terminal : is_terminal (some fatal) ≡ true
unfolding is_kind
fatal_is_terminal = refl

abbrev refused : RefusedPin refusing (world meta)
refused = record {
  kargo_id = "k-1";
  id = "a-1";
  body = pin_body "a-1";
  key = pin_key;
  raw = denied;
  fatal = fatal;
  resolved = resolves;
  found = finds_agent;
  keyed = has_pin_key;
  built = refl;
  refused = refl;
  classified = denies_for_good;
  is_fatal = fatal_is_terminal;
}

refused_pin-suppressed_example :
    ((create_agent refusing (world meta)).0 ≡ some fatal)
    × ((update_agent refusing (world meta)).0 ≡ some fatal)
    × IsSilencedPin refusing (create_agent refusing (world meta)).1 "k-1" fatal
    × IsSilencedPin refusing (update_agent refusing (world meta)).1 "k-1" fatal
refused_pin-suppressed_example =
    refused_pin-suppressed refusing (world meta) [] refl refl refused finds_agent_again
