-- ===== src/Reason.antt =====
-- internal/reason: the error values of the provider, their kinds, and the classification of the
-- errors of a write. `errors.Is` walks the chain of `Unwrap`; of the five kinds only `Terminal`
-- has that method. An error of code outside the repository is `foreign`, told apart by a number;
-- what `status.FromError` and the tests of `apierrors` say of an error is a parameter.
pub mod Classify
mod Tests
use provider_crossplane_akui.Common.{
  if◌then◌else◌, contains, ℕ, String, ◌<>◌, Bool, true, false, not, ◌&&◌, ◌||◌, Option, none, some,
  List, [], ◌∷◌,
}

-- The codes of google.golang.org/grpc/codes.
pub data Code : Type 0 where
  ok_code canceled unknown invalid_argument deadline_exceeded not_found_code already_exists : Code
  permission_denied_code resource_exhausted failed_precondition aborted out_of_range : Code
  unimplemented internal unavailable_code data_loss unauthenticated : Code

pub record Status : Type 0 where
  pub code : Code
  pub message : String

-- The wrapper types of the package.
pub data Kind : Type 0 where
  terminal retryable not_found not_reconciled permission_denied : Kind

pub data Error : Type 0 where
  -- errors.New and fmt.Errorf with no %w
  new : String → Error
  -- fmt.Errorf("prefix: %w", err) and fmt.Errorf("%w: suffix", err)
  wrap : String → Error → Error
  suffix : Error → String → Error
  marked : Kind → Error → Error
  -- a package variable, which `errors.Is` compares by identity
  sentinel : String → Error
  foreign : ℕ → String → Error

-- A Go `error`, which may be nil.
abbrev pub Err : Type 0
Err = Option Error

-- `err.Error()`
unfoldable pub text : Error → String
text (new s) = s
text (wrap s e) = s <> ": " <> text e
text (suffix e s) = text e <> ": " <> s
text (marked k e) = text e
text (sentinel s) = s
text (foreign n s) = s

abbrev same_kind : Kind → Kind → Bool
same_kind terminal terminal = true
same_kind retryable retryable = true
same_kind not_found not_found = true
same_kind not_reconciled not_reconciled = true
same_kind permission_denied permission_denied = true
same_kind _ _ = false

-- The `Unwrap` of a wrapper type.
abbrev pub unwraps : Kind → Bool
unwraps terminal = true
unwraps _ = false

-- `errors.Is(err, K{})`: an error of the chain whose `Is` method says yes.
unfoldable pub is_kind : Kind → Error → Bool
is_kind k (new s) = false
is_kind k (wrap s e) = is_kind k e
is_kind k (suffix e s) = is_kind k e
is_kind k (marked j e) = same_kind k j || (unwraps j && is_kind k e)
is_kind k (sentinel s) = false
is_kind k (foreign n s) = false

abbrev is_kind_err : Kind → Err → Bool
is_kind_err k none = false
is_kind_err k (some e) = is_kind k e

abbrev pub as_terminal : Error → Error
as_terminal = marked terminal

abbrev pub is_terminal : Err → Bool
is_terminal = is_kind_err terminal

abbrev pub as_retryable : Error → Error
as_retryable = marked retryable

abbrev pub as_not_found : Error → Error
as_not_found = marked not_found

abbrev pub is_not_found : Err → Bool
is_not_found = is_kind_err not_found

abbrev pub as_not_reconciled : Error → Error
as_not_reconciled = marked not_reconciled

abbrev pub is_not_reconciled : Err → Bool
is_not_reconciled = is_kind_err not_reconciled

abbrev as_permission_denied : Error → Error
as_permission_denied = marked permission_denied

abbrev is_permission_denied : Err → Bool
is_permission_denied = is_kind_err permission_denied

-- What code outside the repository says of an error: `status.FromError` (`none` where its second
-- result is false), and the tests of k8s.io/apimachinery/pkg/api/errors.
pub record ErrorApi : Type 0 where
  pub from_error : Error → Option Status
  pub is_kube_not_found : Error → Bool
  pub is_forbidden : Error → Bool
  pub is_unauthorized : Error → Bool

abbrev network_texts : List String
network_texts =
    "connection refused" ∷ "connection reset" ∷ "no such host" ∷ "i/o timeout" ∷ "EOF" ∷ []

contains_any : String → List String → Bool
contains_any msg [] = false
contains_any msg (sub ∷ subs) = contains msg sub || contains_any msg subs

abbrev provisioning_text : String
provisioning_text = "still being provisioned"

-- The switch of `isRetryableGRPC`.
abbrev is_retryable_status : Status → Bool
is_retryable_status s = elim s.code [
  | unavailable_code ↦ true
  | deadline_exceeded ↦ true
  | aborted ↦ true
  | resource_exhausted ↦ true
  | internal ↦ true
  | invalid_argument ↦ contains s.message provisioning_text
  | _ ↦ false
]

module _ (api : ErrorApi) where
  unfoldable pub is_retryable_grpc : Error → Bool
  unfolding contains_any
  is_retryable_grpc e = elim (api.from_error e) [
    | none ↦ contains_any (text e) network_texts
    | some s ↦ if is_retryable_status s then true else contains_any (text e) network_texts
  ]

  unfoldable pub is_retryable : Err → Bool
  is_retryable none = false
  is_retryable (some e) = if is_kind retryable e then true else is_retryable_grpc e

  unfoldable pub is_provisioning_wait : Err → Bool
  is_provisioning_wait none = false
  is_provisioning_wait (some e) = elim (api.from_error e) [
    | none ↦ false
    | some s ↦ elim s.code [ invalid_argument ↦ contains s.message provisioning_text | _ ↦ false ]
  ]

  unfoldable pub classify_apply_error : Err → Err
  classify_apply_error none = none
  classify_apply_error (some e) =
      if is_terminal (some e) || is_retryable (some e) then some e else elim (api.from_error e) [
        | none ↦ some e
        | some s ↦ elim s.code [
          | invalid_argument ↦ some (as_terminal e)
          | permission_denied_code ↦ some (as_terminal e)
          | _ ↦ some e
        ]
      ]

  unfoldable pub is_manifest_reconciliation_wait : Error → Bool
  is_manifest_reconciliation_wait e =
      let by_text = contains (text e) "has not yet been reconciled" in
      elim (api.from_error e) [
        | none ↦ by_text
        | some s ↦ elim s.code [ failed_precondition ↦ true | _ ↦ by_text ]
      ]

  unfoldable pub classify_manifest_install_error : Err → Err
  classify_manifest_install_error none = none
  classify_manifest_install_error (some e) =
      if is_terminal (some e) || is_retryable (some e)
      then some e
      else if is_not_reconciled (some e) || is_manifest_reconciliation_wait e
      then some (as_retryable e)
      else some (as_terminal e)
