-- ===== src/Secrets/Named.antt =====
-- What a resolution returns, for one reference and for a list of named ones.
use provider_crossplane_akui.Common.{
  ok, err, Result-cases, if◌then◌else◌, ◌==◌, ==_iff, ==_refl, Bool-cases, length, is_empty, All,
  ◌+◌, String, ◌<>◌, ◌≡◌, refl, sym, ap, ◌∙◌, ◌⊎◌, inl, inr, true, false, ◌||◌, Option, none, some,
  List, [], ◌∷◌, arith,
}
use provider_crossplane_akui.Reason.{Error, wrap, suffix, as_terminal}
use provider_crossplane_akui.Secrets.{
  missing_secret, invalid_secret_reference, empty_secret, is_sentinel, is_config_error,
  as_terminal_if_config, ResolvedSecret, Secret, NamedSecretReference, Kube, credential_name,
  is_repo_credential_name, has_name, resolve_secret, resolve, resolve_each, resolve_named,
}

-- The reading of a map at a name.
unfoldable pub find_name : String → List (String × ResolvedSecret) → Option ResolvedSecret
find_name n [] = none
find_name n ((k, r) ∷ m) = if k == n then some r else find_name n m

module _ (kube : Kube) where
  -- The three fates of a reference to a Secret.
  abbrev pub Loads : String → String → Type 0
  Loads ns n =
      (sec : Secret) × (kube.get ns n ≡ ok sec)
      × (is_empty sec.entries ≡ false)
      × (resolve_secret kube ns n
          ≡ ok (record { namespace = ns; name = n; labels = sec.labels; entries = sec.entries }))

  abbrev pub IsMisconfigured : String → String → Type 0
  IsMisconfigured ns n =
      (e : Error) × (resolve_secret kube ns n ≡ err e) × (is_config_error e ≡ true)

  abbrev pub IsUnreadable : String → String → Type 0
  IsUnreadable ns n =
      (raw : Error) × (e : Error) × (kube.get ns n ≡ err raw)
      × (kube.is_not_found raw ≡ false)
      × (resolve_secret kube ns n ≡ err e)
      × (is_config_error e ≡ is_config_error raw)
      × (as_terminal_if_config (some e) ≡ some (if is_config_error raw then as_terminal e else e))

  -- A reference loads the identity and the entries of a Secret that exists and has some; or it
  -- fails with an error of configuration; or the kube client failed with another error than
  -- "not found", which is wrapped, is an error of configuration only if the client's is, and is
  -- made terminal only then.
  pub resolve_secret_lem : (ns n : String) → Loads ns n ⊎ (IsMisconfigured ns n ⊎ IsUnreadable ns n)
  unfolding resolve_secret is_config_error is_sentinel as_terminal_if_config
  resolve_secret_lem ns n = elim (Bool-cases ((n == "") || (ns == ""))) [
    | inl i ↦ inr (
        inl
          (suffix invalid_secret_reference "both name and namespace are required", rw i refl, refl))
    | inr i ↦ elim (Result-cases (kube.get ns n)) [
      | inr (raw, g) ↦ elim (Bool-cases (kube.is_not_found raw)) [
        | inl f ↦ inr (inl (suffix missing_secret (ns <> "/" <> n), rw (i, g, f) refl, refl))
        | inr f ↦ inr (
            inr (
              raw,
              wrap ("get secret " <> ns <> "/" <> n) raw,
              g,
              f,
              rw (i, g, f) refl,
              refl,
              refl,
            ))
      ]
      | inl (sec, g) ↦ elim (Bool-cases (is_empty sec.entries)) [
        | inl f ↦ inr (inl (suffix empty_secret (ns <> "/" <> n), rw (i, g, f) refl, refl))
        | inr f ↦ inl (sec, g, f, rw (i, g, f) refl)
      ]
    ]
  ]

  -- A named reference has a lawful name, and the map reads there what the reference resolves to.
  abbrev pub IsResolvedIn : List (String × ResolvedSecret) → NamedSecretReference → Type 0
  IsResolvedIn out r =
      (s : ResolvedSecret) × (resolve kube (some r.secret_ref) ≡ ok s)
      × (is_repo_credential_name (credential_name r) ≡ true)
      × (find_name (credential_name r) out ≡ some s)

  abbrev Extends : List (String × ResolvedSecret) → List (String × ResolvedSecret) → Type 0
  Extends old out = (n : String) → has_name n old ≡ true → find_name n out ≡ find_name n old

  find_name-front :
      (n : String) (s : ResolvedSecret) (m : List (String × ResolvedSecret))
      → find_name n ((n, s) ∷ m) ≡ some s
  unfolding find_name
  find_name-front n s m = rw (==_refl n)

  has_name-front :
      (n : String) (s : ResolvedSecret) (m : List (String × ResolvedSecret))
      → has_name n ((n, s) ∷ m) ≡ true
  unfolding has_name
  has_name-front n s m = rw (==_refl n)

  Extends-skip :
      (old out : List (String × ResolvedSecret)) (k : String) (s : ResolvedSecret)
      → has_name k old ≡ false
      → Extends ((k, s) ∷ old) out
      → Extends old out
  unfolding has_name find_name
  Extends-skip old out k s d x n h = ground (arith, d, h, x n, ==_iff k n)

  resolve_each_lem :
      (old out : List (String × ResolvedSecret)) (refs : List NamedSecretReference)
      → resolve_each kube old refs ≡ ok out
      → Extends old out × All (IsResolvedIn out) refs × (length out ≡ length refs + length old)
  unfolding resolve_each
  resolve_each_lem old out [] h =
      let same : old ≡ out = ground arith in
      (λ n _. rw (sym same) refl, tt, ground (arith, ap length same))
  resolve_each_lem old out (r ∷ refs) h =
      elim (Bool-cases (is_repo_credential_name (credential_name r))) [
        | inr l ↦ absurd (ground (arith, l))
        | inl l ↦ elim (Bool-cases (has_name (credential_name r) old)) [
          | inl d ↦ absurd (ground (arith, l, d))
          | inr d ↦ elim (Result-cases (resolve kube (some r.secret_ref))) [
            | inr (e, s) ↦ absurd (ground (arith, l, d, s))
            | inl (s, e) ↦
                let ih =
                  resolve_each_lem ((credential_name r, s) ∷ old) out refs
                    (ground (arith, l, d, e)) in
                (
                  Extends-skip old out (credential_name r) s d ih.0,
                  (
                    (
                      s,
                      e,
                      l,
                      ih.0 (credential_name r) (has_name-front (credential_name r) s old)
                          ∙ find_name-front (credential_name r) s old,
                    ),
                    ih.1,
                  ),
                  ground (arith, ih.2),
                )
          ]
        ]
      ]

  -- The map that a list of named references resolves to has an entry for each and no other: the
  -- names are lawful, and each reads what its own reference resolves to.
  pub resolve_named_lem :
      (refs : List NamedSecretReference) (out : List (String × ResolvedSecret))
      → resolve_named kube refs ≡ ok (some out)
      → All (IsResolvedIn out) refs × (length out ≡ length refs)
  unfolding resolve_named
  resolve_named_lem refs out h = elim (Bool-cases (is_empty refs)) [
    | inl e ↦ absurd (ground (arith, e))
    | inr e ↦ elim (Result-cases (resolve_each kube [] refs)) [
      | inr (x, r) ↦ absurd (ground (arith, e, r))
      | inl (m, r) ↦
          let same : m ≡ out = ground (arith, e, r) in
          let l = resolve_each_lem [] out refs (r ∙ ap ok same) in (l.1, ground (arith, l.2))
    ]
  ]
