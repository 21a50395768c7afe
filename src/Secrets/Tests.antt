-- ===== src/Secrets/Tests.antt =====
-- Secrets of a small cluster.
use text.Mathlib.TextLemmas.{append_cancel_left, append-eq-nil_iff}
use provider_crossplane_akui.Common.{
  ok, err, if◌then◌else◌, ◌==◌, zero, String, ◌<>◌, ◌≡◌, refl, ◌≢◌, true, false, some, List, [],
  ◌∷◌,
}
use provider_crossplane_akui.Reason.{foreign}
use provider_crossplane_akui.Secrets.{
  StringMap, ResolvedSecret, NamedSecretReference, Kube, credential_name, all_name_codes,
  is_repo_credential_name, has_name, resolve_secret, resolve, resolve_each, resolve_named, hash,
}
use provider_crossplane_akui.Secrets.Sorted.{Reordered, swap}
use provider_crossplane_akui.Secrets.Digest.{IsNulFree, hash-collides}

abbrev tls : StringMap
tls = ("key", "k") ∷ ("cert", "c") ∷ []

-- The namespace "team" has the Secret "tls"; other names are not found.
abbrev kube : Kube
kube = record {
  get = λ ns n.
      if n == "tls"
      then ok (record { labels = []; entries = tls })
      else err (foreign 0 "not found");
  is_not_found = λ e. elim e [ foreign zero m ↦ true | _ ↦ false ];
}

abbrev tag : String → String
tag s = "h" <> s

abbrev refs : List NamedSecretReference
refs = record { name = "repo-a"; secret_ref = record { name = "tls"; namespace = "team" } } ∷ []

abbrev resolved : List (String × ResolvedSecret)
resolved = ("repo-a", record { namespace = "team"; name = "tls"; labels = []; entries = tls }) ∷ []

refs_resolve : resolve_named kube refs ≡ ok (some resolved)
unfolding resolve_named resolve_each credential_name is_repo_credential_name all_name_codes has_name
    resolve resolve_secret
refs_resolve = refl

tls_reordered : Reordered tls (("cert", "c") ∷ ("key", "k") ∷ [])
tls_reordered = swap ("key", "k") ("cert", "c") [] refl

tls-IsNulFree : IsNulFree tls
unfolding IsNulFree
tls-IsNulFree = (refl, refl, (refl, refl, tt))

swapped-IsNulFree : IsNulFree (("cert", "c") ∷ ("key", "k") ∷ [])
unfolding IsNulFree
swapped-IsNulFree = (refl, refl, (refl, refl, tt))

tag_injective : (s t : String) → tag s ≡ tag t → s ≡ t
tag_injective s t = append_cancel_left "h" s t

tag_nonempty : (s : String) → tag s ≢ ""
tag_nonempty s h = absurd (cc ((append-eq-nil_iff.0 h).0))

hash-collides_example : hash tag (("a", "x\0b\0y") ∷ []) ≡ hash tag (("a", "x") ∷ ("b", "y") ∷ [])
hash-collides_example = hash-collides tag "a" "b" "x" "y" refl
