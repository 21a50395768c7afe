-- ===== src/Kube/Tests.antt =====
-- A cluster with one namespace, which the tenants have labelled.
use provider_crossplane_akui.Common.{
  ◌∷◌, [], ok, err, if◌then◌else◌, ◌==◌, Bool-cases, is_none, zero, String, ◌≡◌, refl, ◌⊎◌, inl,
  inr, true, false, none, some, arith,
}
use provider_crossplane_akui.Reason.{Error, new, foreign, ErrorApi}
use provider_crossplane_akui.Json.{end}
use provider_crossplane_akui.Kube.{
  Mapping, ApplyObject, Target, KubeApi, push, split_manifests, resource_of, poll_deleted,
  wait_for_deleted, delete_object, apply_manifests, TargetKubeConfig, ConfigApi,
}
use provider_crossplane_akui.Kube.Keeps.{IsKept, apply_manifests-keeps}
use provider_crossplane_akui.Kube.Gone.{IsSeenGone, delete_object-IsSeenGone}

abbrev absent : Error
absent = foreign 0 "not found"

abbrev errors : ErrorApi
errors = record {
  from_error = λ _. none;
  is_kube_not_found = λ e. elim e [ foreign zero m ↦ true | _ ↦ false ];
  is_forbidden = λ _. false;
  is_unauthorized = λ _. false;
}

-- The state is the label of the namespace, empty where it is not there; an object is the name of
-- its resource, and what is not a namespace is never found.
abbrev small : KubeApi String String
small = record {
  errors = errors;
  decode = λ m. if m == "bad" then err (new "no kind") else ok m;
  rest_mapping = λ o. ok (record { resource = o; is_root_scope = o == "namespaces" });
  to_unstructured = λ o. ok end;
  object_name = λ o. ok "akuity";
  object_namespace = λ o. ok "akuity";
  marshal = λ v. ok "{}";
  get = λ s t n. (
    if t.resource == "namespaces" then (if s == "" then some absent else none) else some absent,
    s,
  );
  apply = λ s t n o. (
    none,
    if t.resource == "namespaces" then (if is_none t.namespace then "fresh" else s) else s,
  );
  patch = λ s t n b. (none, s);
  delete_foreground = λ s t n. (none, if t.resource == "namespaces" then "" else s);
  tick = λ s. s;
  polls = 3;
  timed_out = new "context deadline exceeded";
  delete_wait_timeout = "5m0s";
}

splits : split_manifests "namespaces---pods---" ≡ "namespaces" ∷ "pods" ∷ "" ∷ []
unfolding split_manifests push
splits = refl

-- The dashes of a PEM block separate manifests too.
splits_pem : split_manifests "key: -----BEGIN" ≡ "key: " ∷ "--BEGIN" ∷ []
unfolding split_manifests push
splits_pem = refl

abbrev IsTenant : String → Type 0
IsTenant s = s ≡ "tenant"

by_creation_keeps :
    (s : String) (t : Target) (e : Error)
    → (small.get s t "").0 ≡ some e
    → IsTenant s
    → IsTenant
        (if t.resource == "namespaces" then (if is_none t.namespace then "fresh" else s) else s)
by_creation_keeps s t e g p = elim (Bool-cases (t.resource == "namespaces")) [
  | inr n ↦ rw n p
  | inl n ↦ absurd (cc (rw (n, p) at g))
]

small_keeps_it : IsKept small IsTenant
small_keeps_it = record {
  by_get = λ s t n p. p;
  by_tick = λ s p. p;
  by_patch = λ s t n b p. p;
  by_delete = λ s t n r p. rw r p;
  by_apply = λ s t n o r p. elim r [ inl d ↦ rw d p | inr d ↦ ground (arith, d, p) ];
  by_creation = λ s t n o e g f p. by_creation_keeps s t e g p;
}

apply_manifests-keeps_example :
    (apply_manifests small "tenant" "namespaces---pods" true).1 ≡ "tenant"
apply_manifests-keeps_example =
    apply_manifests-keeps small IsTenant small_keeps_it "tenant" "namespaces---pods" true refl

abbrev pods : Mapping
pods = record { resource = "pods"; is_root_scope = false }

abbrev agent : ApplyObject
agent = record { name = "agent"; namespace = "akuity"; unstructured_obj = end }

deletes_pods : (delete_object small "tenant" pods agent).0 ≡ none
unfolding delete_object resource_of wait_for_deleted poll_deleted
deletes_pods = refl

delete_object-IsSeenGone_example :
    ((pods.resource ≡ "namespaces") × ((delete_object small "tenant" pods agent).1 ≡ "tenant"))
    ⊎ IsSeenGone small (delete_object small "tenant" pods agent).1 (resource_of pods agent) "agent"
delete_object-IsSeenGone_example = delete_object-IsSeenGone small "tenant" pods agent deletes_pods

abbrev configs : ConfigApi String
configs = record {
  errors = errors;
  has_client = true;
  get_secret = λ ns n. ok (some "kubeconfig");
  in_cluster = err (new "not in a cluster");
  parse = λ bytes. ok bytes;
  sum = λ s. s;
}

abbrev target : TargetKubeConfig
target = record { enable_in_cluster = false; secret_name = "s"; secret_namespace = "ns" }
