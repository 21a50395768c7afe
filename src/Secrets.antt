-- ===== src/Secrets.antt =====
-- internal/secrets/resolve.go: the Secrets that a managed resource refers to, and their digests. A
-- Go map is an association list in the order in which a range loop would meet it, with a key at
-- most once; bytes are texts. The kube client and SHA-256 are parameters.
pub mod Sorted
mod Digest
mod Named
mod Tests
use provider_crossplane_akui.Common.{
  Result, ok, err, ◌>>=◌, if◌then◌else◌, ltb, nat_eq, ◌==◌, nonempty, is_empty, ℕ, String, ◌<>◌,
  Bool, true, false, not, ◌&&◌, ◌||◌, Option, none, some, List, [], ◌∷◌,
}
use provider_crossplane_akui.Common.Text.{codes, text_lt}
use provider_crossplane_akui.Reason.{
  Error, new, wrap, suffix, marked, sentinel, foreign, Err, unwraps, as_terminal, is_not_found,
}

abbrev pub missing_secret : Error
missing_secret = sentinel "referenced secret not found"

abbrev pub invalid_secret_reference : Error
invalid_secret_reference = sentinel "invalid secret reference"

abbrev pub empty_secret : Error
empty_secret = sentinel "referenced secret has no data"

-- `errors.Is(err, v)` for a package variable with that text.
unfoldable pub is_sentinel : String → Error → Bool
is_sentinel v (new s) = false
is_sentinel v (wrap s e) = is_sentinel v e
is_sentinel v (suffix e s) = is_sentinel v e
is_sentinel v (marked j e) = unwraps j && is_sentinel v e
is_sentinel v (sentinel s) = v == s
is_sentinel v (foreign n s) = false

unfoldable pub is_config_error : Error → Bool
is_config_error e =
    is_sentinel "referenced secret not found" e
    || (is_sentinel "invalid secret reference" e || is_sentinel "referenced secret has no data" e)

unfoldable pub as_terminal_if_config : Err → Err
as_terminal_if_config none = none
as_terminal_if_config (some e) = some (if is_config_error e then as_terminal e else e)

-- `map[string]string`
abbrev pub StringMap : Type 0
StringMap = List (String × String)

pub record ResolvedSecret : Type 0 where
  pub namespace : String
  pub name : String
  pub labels : StringMap
  pub entries : StringMap

abbrev no_secret : ResolvedSecret
no_secret = record { namespace = ""; name = ""; labels = []; entries = [] }

-- A Secret as the kube client returns it.
pub record Secret : Type 0 where
  pub labels : StringMap
  pub entries : StringMap

pub record SecretReference : Type 0 where
  pub name : String
  pub namespace : String

pub record NamedSecretReference : Type 0 where
  pub name : String
  pub secret_ref : SecretReference

-- The kube client, and the test on its errors.
pub record Kube : Type 0 where
  pub get : String → String → Result Error Secret
  pub is_not_found : Error → Bool

unfoldable pub credential_name : NamedSecretReference → String
credential_name r = if nonempty r.name then r.name else r.secret_ref.name

-- `^repo-[a-z0-9][a-z0-9-]*$`
abbrev is_lower_or_digit : ℕ → Bool
is_lower_or_digit c =
    (not (ltb c b'a') && not (ltb b'z' c)) || (not (ltb c b'0') && not (ltb b'9' c))

unfoldable pub all_name_codes : List ℕ → Bool
all_name_codes [] = true
all_name_codes (c ∷ cs) = (is_lower_or_digit c || nat_eq c b'-') && all_name_codes cs

abbrev after_prefix : List ℕ → List ℕ → Option (List ℕ)
after_prefix [] cs = some cs
after_prefix (p ∷ ps) [] = none
after_prefix (p ∷ ps) (c ∷ cs) = let rest = after_prefix ps cs in if nat_eq p c then rest else none

unfoldable pub is_repo_credential_name : String → Bool
unfolding all_name_codes
is_repo_credential_name s = elim (after_prefix (codes "repo-") (codes s)) [
  | none ↦ false
  | some [] ↦ false
  | some (c ∷ cs) ↦ is_lower_or_digit c && all_name_codes cs
]

-- `_, dup := out[name]`
unfoldable pub has_name : {A : Type 0} → String → List (String × A) → Bool
has_name name [] = false
has_name name ((k, v) ∷ m) = (k == name) || has_name name m

module _ (kube : Kube) where
  unfoldable pub resolve_secret : String → String → Result Error ResolvedSecret
  resolve_secret namespace name =
      if (name == "") || (namespace == "")
      then err (suffix invalid_secret_reference "both name and namespace are required")
      else elim (kube.get namespace name) [
        | err e ↦
            if kube.is_not_found e
            then err (suffix missing_secret (namespace <> "/" <> name))
            else err (wrap ("get secret " <> namespace <> "/" <> name) e)
        | ok sec ↦
            if is_empty sec.entries
            then err (suffix empty_secret (namespace <> "/" <> name))
            else ok (record {
              namespace = namespace;
              name = name;
              labels = sec.labels;
              entries = sec.entries;
            })
      ]

  unfoldable pub resolve : Option SecretReference → Result Error ResolvedSecret
  resolve none = ok no_secret
  resolve (some ref) = resolve_secret ref.namespace ref.name

  unfoldable resolve_all_keys : Option SecretReference → Result Error StringMap
  resolve_all_keys ref = resolve ref >>= λ resolved. ok resolved.entries

  -- The loop of `ResolveNamed`; `out` holds what is resolved so far, the latest first.
  unfoldable pub resolve_each :
      List (String × ResolvedSecret)
      → List NamedSecretReference
      → Result Error (List (String × ResolvedSecret))
  resolve_each out [] = ok out
  resolve_each out (r ∷ refs) =
      let name = credential_name r in
      if not (is_repo_credential_name name)
      then err (
          suffix invalid_secret_reference
            ("effective name \"" <> name <> "\" must match ^repo-[a-z0-9][a-z0-9-]*$"))
      else if has_name name out
      then err
          (suffix invalid_secret_reference ("duplicate secret reference name \"" <> name <> "\""))
      else elim (resolve (some r.secret_ref)) [
        | err e ↦ err (wrap ("resolve \"" <> name <> "\"") e)
        | ok resolved ↦ resolve_each ((name, resolved) ∷ out) refs
      ]

  -- `none` is the nil map.
  unfoldable pub resolve_named :
      List NamedSecretReference → Result Error (Option (List (String × ResolvedSecret)))
  resolve_named refs =
      if is_empty refs then ok none else (resolve_each [] refs >>= λ out. ok (some out))

-- The insertion of a key by `sort.Strings`, with the value that `data[k]` reads.
unfoldable pub insert_entry : String × String → StringMap → StringMap
insert_entry e [] = e ∷ []
insert_entry e (x ∷ xs) =
    let rest = insert_entry e xs in if text_lt x.0 e.0 then x ∷ rest else e ∷ x ∷ xs

unfoldable pub sorted_entries : StringMap → StringMap
sorted_entries [] = []
sorted_entries (e ∷ es) = insert_entry e (sorted_entries es)

-- What the loop writes to the hash.
unfoldable pub hash_bytes : StringMap → String
hash_bytes [] = ""
hash_bytes ((k, v) ∷ es) = k <> "\0" <> v <> "\0" <> hash_bytes es

module _ (sum : String → String) where
  unfoldable pub hash : StringMap → String
  hash es = if is_empty es then "" else sum (hash_bytes (sorted_entries es))

  unfoldable hash_secret : ResolvedSecret → String
  hash_secret r =
      if (r.namespace == "") && ((r.name == "") && is_empty r.entries)
      then ""
      else hash (
          ("__namespace__", r.namespace) ∷ ("__name__", r.name) ∷ ("__data__", hash r.entries) ∷ [])

  abbrev hash_each : List (String × ResolvedSecret) → StringMap
  hash_each [] = []
  hash_each ((k, r) ∷ m) = (k, hash_secret r) ∷ hash_each m

  -- The digests are read in the loop; the texts written are those of `hash`.
  unfoldable hash_named_resolved : List (String × ResolvedSecret) → String
  hash_named_resolved m = hash (hash_each m)
