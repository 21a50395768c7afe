-- ===== src/AllowList/Tests.antt =====
-- A gateway that holds one list, and one that refuses every patch.
use provider_crossplane_akui.Common.{
  ok, ◌==◌, zero, ◌≡◌, refl, sym, Bool, true, false, ◌&&◌, none, some, [], ◌∷◌,
}
use provider_crossplane_akui.Reason.{
  invalid_argument, terminal, Error, marked, foreign, text, is_kind, is_terminal, ErrorApi,
  is_retryable_grpc, is_retryable, classify_apply_error,
}
use provider_crossplane_akui.Managed.{Meta}
use provider_crossplane_akui.Guard.{
  TerminalWriteKey, write_terminal_fingerprint_part, write_parts, new_terminal_write_key,
}
use provider_crossplane_akui.Json.{Json, lookup, as_map, as_list}
use provider_crossplane_akui.AllowList.{
  AllowList, Api, World, allow_list_gvk, patch_body, pb_entries_to_spec, resolve_instance_id,
  terminal_write_key, observe, send_patch, patch, create, update, delete,
}
use provider_crossplane_akui.AllowList.Requests.{parse_entries}
use provider_crossplane_akui.AllowList.Converge.{IsMerging, IsSettled, writes_settle}
use provider_crossplane_akui.AllowList.Suppressed.{Rejected, IsSilenced, rejected-suppressed}
use provider_crossplane_akui.AllowList.Deletion.{delete-settles}

abbrev errors : ErrorApi
errors = record {
  from_error = λ e. elim e [
    | foreign zero m ↦ some (record { code = invalid_argument; message = m })
    | _ ↦ none
  ];
  is_kube_not_found = λ _. false;
  is_forbidden = λ _. false;
  is_unauthorized = λ _. false;
}

-- The list of a patch.
listed : Json → AllowList
listed body = elim (as_map (some body)) [
  | none ↦ []
  | some top ↦ elim (as_map (lookup "spec" top)) [
    | none ↦ []
    | some spec ↦ elim (as_list (lookup "ipAllowList" spec)) [
      | none ↦ []
      | some es ↦ parse_entries es
    ]
  ]
]

same_list : AllowList → AllowList → Bool
same_list [] [] = true
same_list (none ∷ a) (none ∷ b) = same_list a b
same_list (some x ∷ a) (some y ∷ b) =
    x.ip == y.ip && (x.description == y.description && same_list a b)
same_list _ _ = false

abbrev storing : Api AllowList
storing = record {
  errors = errors;
  get_instance_by_id = λ s id. (ok s, s);
  patch_instance = λ s id body. (none, listed body);
  kube_instance_id = λ ns n. ok "i-1";
  new_struct = λ body. ok body;
  encode = λ body. ok "json";
  sum = λ s. s;
  equal = same_list;
}

abbrev bad_request : Error
bad_request = foreign 0 "not an IP address"

abbrev refusing : Api AllowList
refusing = record storing { patch_instance = λ s id body. (some bad_request, s) }

abbrev meta : Meta
meta = record {
  uid = "u1";
  namespace = "team";
  name = "list";
  external_name = "list";
  was_deleted = false;
  generation = 2;
  observed_generation = 1;
  conditions = [];
}

abbrev office : AllowList
office = some (record { ip = "10.0.0.1"; description = "" }) ∷ []

abbrev world : Meta → World AllowList
world m = record {
  remote = [];
  guard = some [];
  mg = record {
    meta = m;
    instance_id = "";
    instance_ref = some "argo";
    allow_list = office;
    at_allow_list = [];
    at_instance_id = "";
  };
}

storing_merges : IsMerging storing
unfolding listed lookup
storing_merges = record {
  merges = λ s id desired body built done.
      let same : patch_body desired ≡ body = cc in rw (sym same) refl;
}

resolves : resolve_instance_id storing (world meta).mg ≡ ok "i-1"
unfolding resolve_instance_id
resolves = refl

office_is_whole : pb_entries_to_spec office ≡ office
unfolding pb_entries_to_spec
office_is_whole = refl

office_is_itself : same_list office office ≡ true
unfolding same_list
office_is_itself = refl

writes_settle_example :
    ((create storing (world meta)).0 ≡ none
      → ("list" == "") ≡ false
      → IsSettled storing (create storing (world meta)).1)
    × ((update storing (world meta)).0 ≡ none
        → ("list" == "") ≡ false
        → IsSettled storing (update storing (world meta)).1)
writes_settle_example =
    writes_settle storing (world meta) storing_merges office_is_whole office_is_itself refl

abbrev dying : Meta
dying = record meta { was_deleted = true }

delete_succeeds : (delete storing (world dying)).0 ≡ none
unfolding delete patch send_patch resolve_instance_id terminal_write_key new_terminal_write_key
    write_parts write_terminal_fingerprint_part
delete_succeeds = refl

delete-settles_example :
    ((observe storing (delete storing (world dying)).1).obs.resource_exists ≡ false)
    × ((observe storing (delete storing (world dying)).1).error ≡ none)
delete-settles_example =
    delete-settles storing (world dying) storing_merges refl refl delete_succeeds

abbrev fatal : Error
fatal = marked terminal bad_request

abbrev office_key : TerminalWriteKey
office_key = record {
  gvk = allow_list_gvk;
  uid = "u1";
  namespace = "team";
  name = "list";
  fingerprint = "map[string]interface {}\njson\n";
}

has_key_of_office : terminal_write_key refusing (world meta).mg "i-1" office ≡ ok office_key
unfolding terminal_write_key new_terminal_write_key write_parts write_terminal_fingerprint_part
has_key_of_office = refl

refuses_for_good : classify_apply_error errors (some bad_request) ≡ some fatal
unfolding classify_apply_error is_kind is_retryable is_retryable_grpc text
refuses_for_good = refl

fatal_is_terminal : is_terminal (some fatal) ≡ true
unfolding is_kind
fatal_is_terminal = refl

refusing_resolves : resolve_instance_id refusing (world meta).mg ≡ ok "i-1"
unfolding resolve_instance_id
refusing_resolves = refl

abbrev refused : Rejected refusing (world meta) office
refused = record {
  id = "i-1";
  body = patch_body office;
  key = office_key;
  raw = bad_request;
  fatal = fatal;
  resolved = refusing_resolves;
  built = refl;
  keyed = has_key_of_office;
  refused = refl;
  classified = refuses_for_good;
  is_fatal = fatal_is_terminal;
}

rejected-suppressed_example :
    ((create refusing (world meta)).0 ≡ some fatal)
    × ((update refusing (world meta)).0 ≡ some fatal)
    × IsSilenced refusing (create refusing (world meta)).1 fatal
    × IsSilenced refusing (update refusing (world meta)).1 fatal
rejected-suppressed_example = rejected-suppressed refusing (world meta) [] refl refl refused
