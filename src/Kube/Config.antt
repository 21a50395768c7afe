-- ===== src/Kube/Config.antt =====
-- The fingerprint of a target follows the kubeconfig that its client is built from.
use provider_crossplane_akui.Common.{
  ok, err, Result-cases, ◌==◌, Bool-cases, Option-cases, String, ◌<>◌, ◌≡◌, inl, inr, true, false,
  some, arith,
}
use provider_crossplane_akui.Reason.{Error, new}
use provider_crossplane_akui.Kube.{
  TargetKubeConfig, has_kube_config, ConfigApi, secret_ref, target_fingerprint, rest_config,
}

module _ {C : Type 0} (api : ConfigApi C) where
  -- Where a client can be built from a Secret, the fingerprint is that of the bytes that it was
  -- built from, so that it changes with them; and where no source is configured, no client can be
  -- built and the fingerprint is empty.
  target_fingerprint-rest_config :
      (t : TargetKubeConfig) (c : C)
      → api.has_client ≡ true
      → t.enable_in_cluster ≡ false
      → (rest_config api t ≡ ok c
          → (bytes : String) × (api.get_secret t.secret_namespace t.secret_name ≡ ok (some bytes))
            × (api.parse bytes ≡ ok c)
            × (target_fingerprint api t ≡ secret_ref t <> ":sha256:" <> api.sum bytes))
        × (has_kube_config t ≡ false
            → (target_fingerprint api t ≡ "") × ((e : Error) × (rest_config api t ≡ err e)))
  unfolding rest_config target_fingerprint has_kube_config
  target_fingerprint-rest_config t c client out = (
    λ h. elim (Bool-cases (t.secret_name == "")) [
      | inl n ↦ absurd (ground (arith, out, n))
      | inr n ↦ elim (Result-cases (api.get_secret t.secret_namespace t.secret_name)) [
        | inr (e, g) ↦ absurd (ground (arith, out, n, g))
        | inl (found, g) ↦ elim (Option-cases found) [
          | inl f ↦ absurd (ground (arith, out, n, g, f))
          | inr (bytes, f) ↦ elim (Result-cases (api.parse bytes)) [
            | inr (e, p) ↦ absurd (ground (arith, out, n, g, f, p))
            | inl (d, p) ↦ (
              bytes,
              ground (arith, g, f),
              ground (arith, out, n, g, f, p),
              ground (arith, out, n, g, f, client),
            )
          ]
        ]
      ]
    ],
    λ h. (
      ground (arith, h, out),
      (new "kubeconfig secret reference is missing a Name", ground (arith, h, out)),
    ),
  )
