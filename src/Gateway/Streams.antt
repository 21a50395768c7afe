-- ===== src/Gateway/Streams.antt =====
-- What the loop over a stream of manifests returns, for every order in which `select` serves the
-- two channels.
use text.Mathlib.TextLemmas.{append_assoc, append-nil, nil-append}
use provider_crossplane_akui.Common.{
  Result, ok, err, ◌≡◌, refl, sym, ap, ◌∙◌, String, ◌<>◌, ◌⊎◌, inl, inr, ℕ, ◌+◌, ◌≤◌, length, arith,
  none, some, List, [], ◌∷◌, ◌++◌, All, Member,
}
use provider_crossplane_akui.Reason.{Error, wrap, Err}
use provider_crossplane_akui.Gateway.State.{
  Receives, chunk, nil_error, server_error, chunks_closed, errors_closed,
}
use provider_crossplane_akui.Gateway.Manifests.{get_manifests_from_response}

-- The orders in which `select` can serve a channel of chunks and a channel of errors, which hold
-- these and are then closed.
pub data Serves : List String → List Err → Receives → Type 0 where
  next_chunk :
      {c : String} {cs : List String} {es : List Err} {r : Receives}
      → Serves cs es r
      → Serves (c ∷ cs) es (chunk c r)
  next_nil :
      {cs : List String} {es : List Err} {r : Receives}
      → Serves cs es r
      → Serves cs (none ∷ es) (nil_error r)
  next_error :
      {cs : List String} {e : Error} {es : List Err} → Serves cs (some e ∷ es) (server_error e)
  last_chunk : {es : List Err} → Serves [] es chunks_closed
  last_error : {cs : List String} → Serves cs [] errors_closed

abbrev pub concat : List String → String
concat [] = ""
concat (c ∷ cs) = c <> concat cs

-- The chunks that the loop is given, the error that ends it, if one does, and the number of its
-- receives.
abbrev pub received : Receives → List String
received (chunk c r) = c ∷ received r
received (nil_error r) = received r
received (server_error e) = []
received chunks_closed = []
received errors_closed = []

abbrev pub failure : Receives → Err
failure (chunk c r) = failure r
failure (nil_error r) = failure r
failure (server_error e) = some e
failure chunks_closed = none
failure errors_closed = none

abbrev pub count_receives : Receives → ℕ
count_receives (chunk c r) = 1 + count_receives r
count_receives (nil_error r) = 1 + count_receives r
count_receives (server_error e) = 1
count_receives chunks_closed = 1
count_receives errors_closed = 1

-- What a loop returns that collected a text: the error that ended it, if one did.
abbrev pub returned : Err → String → Result Error String
returned none s = ok s
returned (some e) s = err (wrap "could not get cluster manifests from Akuity API, error" e)

get_manifests_from_response-returned :
    (acc : String) (r : Receives)
    → get_manifests_from_response acc r ≡ returned (failure r) (acc <> concat (received r))
unfolding get_manifests_from_response
get_manifests_from_response-returned acc (chunk c r) =
    get_manifests_from_response-returned (acc <> c) r
    ∙ ap (returned (failure r)) (append_assoc acc c (concat (received r)))
get_manifests_from_response-returned acc (nil_error r) = get_manifests_from_response-returned acc r
get_manifests_from_response-returned acc (server_error e) = refl
get_manifests_from_response-returned acc chunks_closed =
    ap (λ (s : String). ok s) (sym (append-nil acc))
get_manifests_from_response-returned acc errors_closed =
    ap (λ (s : String). ok s) (sym (append-nil acc))

-- What the order of the receives leaves of the channels.
pub record IsServed (cs : List String) (es : List Err) (r : Receives) : Type 0 where
  pub left : List String
  pub in_order : cs ≡ received r ++ left
  -- without an error, either all the chunks were received or the channel of errors held none
  pub ended : failure r ≡ none → (left ≡ []) ⊎ All (λ (e : Err). e ≡ none) es
  pub sent : (e : Error) → failure r ≡ some e → Member (some e) es
  pub bounded : count_receives r ≤ length cs + length es + 1

Serves-IsServed :
    {cs : List String} {es : List Err} {r : Receives} → Serves cs es r → IsServed cs es r
Serves-IsServed (next_chunk {c} s) =
    let i = Serves-IsServed s in
    record {
      left = i.left;
      in_order = ap (λ (l : List String). c ∷ l) i.in_order;
      ended = i.ended;
      sent = i.sent;
      bounded = let b = i.bounded in omega arith;
    }
Serves-IsServed (next_nil s) =
    let i = Serves-IsServed s in
    record {
      left = i.left;
      in_order = i.in_order;
      ended = λ f. elim (i.ended f) [ inl l ↦ inl l | inr a ↦ inr (refl, a) ];
      sent = λ e f. inr (i.sent e f);
      bounded = let b = i.bounded in omega arith;
    }
Serves-IsServed (next_error {cs} {e} {es}) = record {
  left = cs;
  in_order = refl;
  ended = λ f. absurd (cc);
  sent = λ x f. inl (sym f);
  bounded = omega arith;
}
Serves-IsServed (last_chunk {es}) = record {
  left = [];
  in_order = refl;
  ended = λ f. inl refl;
  sent = λ e f. absurd (cc);
  bounded = omega arith;
}
Serves-IsServed (last_error {cs}) = record {
  left = cs;
  in_order = refl;
  ended = λ f. inr tt;
  sent = λ e f. absurd (cc);
  bounded = omega arith;
}

-- Whatever order `select` takes, the loop returns exactly the chunks that it received, in order, or
-- the error that ended it. The chunks received are the first ones of the stream; an error that
-- ends it was sent by the server; if none does, all chunks were received or the channel of errors
-- held no error. The loop receives at most once for every item of the two channels, and once more.
pub get_manifests_from_response-Serves :
    (cs : List String) (es : List Err) (r : Receives)
    → Serves cs es r
    → (get_manifests_from_response "" r ≡ returned (failure r) (concat (received r)))
      × IsServed cs es r
get_manifests_from_response-Serves cs es r s = (
  get_manifests_from_response-returned "" r
      ∙ ap (returned (failure r)) (nil-append (concat (received r))),
  Serves-IsServed s,
)

all_chunks : List String → Receives
all_chunks [] = chunks_closed
all_chunks (c ∷ cs) = chunk c (all_chunks cs)

all_chunks-Serves : (cs : List String) (es : List Err) → Serves cs es (all_chunks cs)
unfolding all_chunks
all_chunks-Serves [] es = last_chunk
all_chunks-Serves (c ∷ cs) es = next_chunk (all_chunks-Serves cs es)

get_manifests_from_response-all_chunks :
    (acc : String) (cs : List String)
    → get_manifests_from_response acc (all_chunks cs) ≡ ok (acc <> concat cs)
unfolding get_manifests_from_response all_chunks
get_manifests_from_response-all_chunks acc [] = ap (λ (s : String). ok s) (sym (append-nil acc))
get_manifests_from_response-all_chunks acc (c ∷ cs) =
    get_manifests_from_response-all_chunks (acc <> c) cs
    ∙ ap (λ (s : String). ok s) (append_assoc acc c (concat cs))

-- Some order loses what the channels hold: a stream with no error may give the empty text as its
-- manifests, and a stream with an error may give its chunks with no error.
pub get_manifests_from_response-loses :
    (cs : List String) (e : Error) (es : List Err)
    → ((r : Receives) × Serves cs [] r × (get_manifests_from_response "" r ≡ ok ""))
      × ((r : Receives) × Serves cs (some e ∷ es) r
          × (get_manifests_from_response "" r ≡ ok (concat cs)))
unfolding get_manifests_from_response
get_manifests_from_response-loses cs e es = (
  (errors_closed, last_error, refl),
  (
    all_chunks cs,
    all_chunks-Serves cs (some e ∷ es),
    get_manifests_from_response-all_chunks "" cs
        ∙ ap (λ (s : String). ok s) (nil-append (concat cs)),
  ),
)
