-- ===== src/Gateway/Reads.antt =====
-- Methods of the client that only read the platform.
use provider_crossplane_akui.Common.{
  Result, ok, err, if◌then◌else◌, ◌≡◌, refl, sym, ap, ◌∙◌, Bool, true, false, String,
}
use provider_crossplane_akui.Common.Exec.{pure, raise, lift, ◌>>=◌, attempt}
use provider_crossplane_akui.Reason.{Error, new}
use provider_crossplane_akui.Gateway.State.{
  Client, ClientWorld, Method, GatewayApi, InstanceRequest, ask, by_id,
}
use provider_crossplane_akui.Gateway.Gets.{
  read_instance_by_id, get_instance_by_id, choose_workspace, resolve_workspace,
}

-- The method leaves the world, and what it returns is determined by the state of the platform.
pub record IsRead {S A : Type 0} (m : Method S A) : Type 0 where
  pub same_world : (w : ClientWorld S) → (m w).1 ≡ w
  pub same_answer : (w v : ClientWorld S) → w.remote ≡ v.remote → (m w).0 ≡ (m v).0

module _ {S : Type 0} where
  IsRead-pure : {A : Type 0} (a : A) → IsRead {S = S} {A = A} (pure a)
  IsRead-pure a = record { same_world = λ w. refl; same_answer = λ w v e. refl }

  IsRead-raise : {A : Type 0} (e : Error) → IsRead {S = S} {A = A} (raise e)
  IsRead-raise e = record { same_world = λ w. refl; same_answer = λ w v h. refl }

  IsRead-ask :
      {A : Type 0} (call : S → Result Error A × S)
      → ((s : S) → (call s).1 ≡ s)
      → IsRead (attempt (ask call))
  IsRead-ask call keeps = record {
    same_world = λ w. ap (λ (s : S). record w { remote = s }) (keeps w.remote);
    same_answer = λ w v e. ap (λ (s : S). ok (call s).0) e;
  }

  IsRead-lift :
      {A B : Type 0} (r : Result Error A) (f : A → Method S B)
      → ((a : A) → IsRead (f a))
      → IsRead (lift r >>= f)
  IsRead-lift (ok a) f reads = reads a
  IsRead-lift (err e) f reads = IsRead-raise e

  IsRead-bind :
      {A B : Type 0} (m : Method S A) (f : A → Method S B)
      → IsRead m
      → ((a : A) → IsRead (f a))
      → IsRead (m >>= f)
  IsRead-bind {A} m f first rest = record {
    same_world = λ w. (IsRead-lift (m w).0 f rest).same_world (m w).1 ∙ first.same_world w;
    same_answer = λ w v e.
        ap (λ (r : Result Error A). ((lift r >>= f) (m w).1).0) (first.same_answer w v e)
        ∙ (IsRead-lift (m v).0 f rest).same_answer (m w).1 (m v).1 (
            ap (λ (u : ClientWorld S). u.remote) (first.same_world w)
            ∙ e
            ∙ sym (ap (λ (u : ClientWorld S). u.remote) (first.same_world v)));
  }

  -- A call whose answer is read by a function.
  IsRead-call :
      {A B : Type 0} (call : S → Result Error A × S) (f : Result Error A → Result Error B)
      → ((s : S) → (call s).1 ≡ s)
      → IsRead (attempt (ask call) >>= λ r. lift (f r))
  IsRead-call call f keeps =
      IsRead-bind (attempt (ask call)) (λ r. lift (f r)) (IsRead-ask call keeps)
        λ r. record { same_world = λ w. refl; same_answer = λ w v e. refl }

  IsRead-if :
      {A : Type 0} (b : Bool) (m n : Method S A) → IsRead m → IsRead n → IsRead (if b then m else n)
  IsRead-if true m n p q = p
  IsRead-if false m n p q = q

-- The gateway answers a get of an Argo CD instance and a list of workspaces without a change.
pub record HasPureReads {S T : Type 0} (api : GatewayApi S T) : Type 0 where
  pub get_instance_keeps : (r : InstanceRequest) (s : S) → (api.get_instance r s).1 ≡ s
  pub list_workspaces_keeps : (o : String) (s : S) → (api.list_workspaces o s).1 ≡ s

module _ {S T : Type 0} (api : GatewayApi S T) (c : Client) (reads : HasPureReads api) where
  pub get_instance_by_id-IsRead : (id : String) → IsRead (get_instance_by_id api c id)
  unfolding get_instance_by_id
  get_instance_by_id-IsRead id = IsRead-call _ (read_instance_by_id api c id) (
      reads.get_instance_keeps
        (record { organization_id = c.organization_id; id_type = by_id; id = id }))

  pub resolve_workspace-IsRead : (name : String) → IsRead (resolve_workspace api c name)
  unfolding resolve_workspace
  resolve_workspace-IsRead name =
      IsRead-bind _ _ (IsRead-if c.has_org _ (raise (new _)) (IsRead-pure tt) (IsRead-raise _)) λ u.
        IsRead-call (api.list_workspaces c.organization_id) (choose_workspace api c name)
          (reads.list_workspaces_keeps c.organization_id)
