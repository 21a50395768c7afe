-- ===== src/Kube.antt =====
-- internal/clients/kube/apply_client.go and targetapply.go: the manifests of an agent, applied to
-- its cluster or deleted from it. The decoder, discovery and the cluster behind the dynamic client
-- are the parameter `KubeApi`; the state of the cluster is passed on through every call, and `tick`
-- is what happens between two polls.
mod State
mod Order
mod Keeps
mod Gone
mod Config
mod Tests
use provider_crossplane_akui.Common.{
  Result, ok, err, ◌>>=◌, map_err, if◌then◌else◌, ◌==◌, nonempty, ℕ, zero, suc, ◌*◌, String, ◌<>◌,
  Bool, not, ◌&&◌, ◌||◌, Option, none, some, List, [], ◌∷◌,
}
use provider_crossplane_akui.Reason.{Error, new, wrap, Err, ErrorApi}
use provider_crossplane_akui.Json.{lookup}
unfoldable pub use State.*

module _ {S O : Type 0} (api : KubeApi S O) where
  unfoldable pub get_objects : List String → Result Error (List O)
  get_objects [] = ok []
  get_objects (m ∷ ms) =
      let rest = get_objects ms in
      if m == "" then rest else elim (api.decode m) [
        | err e ↦ err (wrap "failed to unmarshal manifest" e)
        | ok o ↦ rest >>= λ os. ok (o ∷ os)
      ]

  unfoldable pub parse_object : O → Result Error ApplyObject
  parse_object o = api.to_unstructured o >>= λ fields. api.object_name o >>= λ name.
      api.object_namespace o >>= λ namespace.
      ok (record { name = name; namespace = namespace; unstructured_obj = fields })

  -- The polling of `waitForDeleted`, as often as the timeout allows.
  unfoldable pub poll_deleted : ℕ → S → Target → String → Err × S
  poll_deleted zero s t name = (some api.timed_out, s)
  poll_deleted (suc n) s t name =
      let (e, s') = api.get s t name in
      elim e [
        | none ↦ poll_deleted n (api.tick s') t name
        | some x ↦ if api.errors.is_kube_not_found x then (none, s') else (some x, s')
      ]

  unfoldable pub wait_for_deleted : S → Target → Mapping → ApplyObject → Err × S
  wait_for_deleted s t m o =
      let (e, s') = poll_deleted api.polls s t o.name in
      elim e [
        | none ↦ (none, s')
        | some x ↦ (
          some (
              wrap
                ("wait for "
                  <> object_ref m o
                  <> " to be deleted within "
                  <> api.delete_wait_timeout)
                x),
          s',
        )
      ]

  unfoldable pub delete_object : S → Mapping → ApplyObject → Err × S
  delete_object s m o =
      if m.resource == "namespaces"
      then (none, s)
      else let (e, s') = api.delete_foreground s (resource_of m o) o.name in
        elim e [ some x ↦ (some x, s') | none ↦ wait_for_deleted s' (resource_of m o) m o ]

  -- The branch of `applyObject` for a namespace.
  unfoldable pub apply_namespace : S → Target → ApplyObject → Err × S
  apply_namespace s t o =
      let (e, s') = api.get s t o.name in
      elim e [
        | some x ↦
            if api.errors.is_kube_not_found x
            then api.apply s' t o.name o.unstructured_obj
            else (some x, s')
        | none ↦ elim (api.marshal (lookup "metadata" o.unstructured_obj)) [
          | err x ↦ (some x, s')
          | ok bytes ↦ api.patch s' t o.name bytes
        ]
      ]

  unfoldable pub apply_object : S → Mapping → ApplyObject → Err × S
  apply_object s m o =
      if is_cluster_scoped m
      then if m.resource == "namespaces"
        then apply_namespace s (resource_of m o) o
        else api.apply s (resource_of m o) o.name o.unstructured_obj
      else api.apply s (resource_of m o) o.name o.unstructured_obj

  abbrev forgive : Bool → Err → Err
  forgive delete none = none
  forgive delete (some x) = if delete && api.errors.is_kube_not_found x then none else some x

  -- One turn of the loop of `ApplyManifests`.
  unfoldable pub apply_one : Bool → S → O → Err × S
  apply_one delete s object = elim (api.rest_mapping object) [
    | err e ↦ (some (wrap "error setting up API mapping for dynamic client" e), s)
    | ok m ↦ elim (parse_object object) [
      | err e ↦ (some e, s)
      | ok o ↦
          let (e, s') = if delete then delete_object s m o else apply_object s m o in
          elim (forgive delete e) [
            | none ↦ (none, s')
            | some x ↦ (some (wrap "error applying resource" x), s')
          ]
    ]
  ]

  unfoldable pub apply_each : Bool → S → List O → Err × S
  apply_each delete s [] = (none, s)
  apply_each delete s (o ∷ os) =
      let (e, s') = apply_one delete s o in
      elim e [ some x ↦ (some x, s') | none ↦ apply_each delete s' os ]

  unfoldable pub apply_manifests : S → String → Bool → Err × S
  apply_manifests s manifests delete = elim (get_objects (split_manifests manifests)) [
    | err e ↦ (some e, s)
    | ok objects ↦ apply_each delete s objects
  ]

pub record TargetKubeConfig : Type 0 where
  pub enable_in_cluster : Bool
  pub secret_name : String
  pub secret_namespace : String

unfoldable pub has_kube_config : TargetKubeConfig → Bool
has_kube_config t = t.enable_in_cluster || nonempty t.secret_name

-- The reader of Secrets, with the bytes under "kubeconfig", if any, and what makes a rest.Config;
-- SHA-256 in hexadecimal.
pub record ConfigApi (C : Type 0) : Type 0 where
  pub errors : ErrorApi
  -- whether the client is not nil
  pub has_client : Bool
  pub get_secret : String → String → Result Error (Option String)
  pub in_cluster : Result Error C
  pub parse : String → Result Error C
  pub sum : String → String

abbrev pub secret_ref : TargetKubeConfig → String
secret_ref t = "secret:" <> t.secret_namespace <> "/" <> t.secret_name

module _ {C : Type 0} (api : ConfigApi C) where
  abbrev error_marker : Error → String
  error_marker e =
      if api.errors.is_kube_not_found e
      then ":not-found"
      else if api.errors.is_forbidden e
      then ":forbidden"
      else if api.errors.is_unauthorized e
      then ":unauthorized"
      else ":resolve-error"

  unfoldable pub target_fingerprint : TargetKubeConfig → String
  target_fingerprint t =
      if not (has_kube_config t)
      then ""
      else if t.enable_in_cluster
      then "in-cluster"
      else if not api.has_client
      then secret_ref t <> ":client-unavailable"
      else elim (api.get_secret t.secret_namespace t.secret_name) [
        | err e ↦ secret_ref t <> error_marker e
        | ok none ↦ secret_ref t <> ":missing-key:kubeconfig"
        | ok (some bytes) ↦ secret_ref t <> ":sha256:" <> api.sum bytes
      ]

  unfoldable pub rest_config : TargetKubeConfig → Result Error C
  rest_config t =
      if t.enable_in_cluster
      then map_err (wrap "could not build in-cluster kube config") api.in_cluster
      else if t.secret_name == ""
      then err (new "kubeconfig secret reference is missing a Name")
      else elim (api.get_secret t.secret_namespace t.secret_name) [
        | err e ↦ err (
            wrap
              ("could not get secret " <> t.secret_namespace <> "/" <> t.secret_name
                <> " containing kubeconfig")
              e)
        | ok none ↦ err (
            new (
              "secret " <> t.secret_namespace <> "/" <> t.secret_name
              <> " has no \"kubeconfig\" key"))
        | ok (some bytes) ↦
            map_err
              (wrap (
                "could not parse kubeconfig from secret " <> t.secret_namespace <> "/"
                <> t.secret_name))
              (api.parse bytes)
      ]
