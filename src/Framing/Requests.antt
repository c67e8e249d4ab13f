-- ===== src/Framing/Requests.antt =====
-- daemon/protocol.py: which requests `parse_request` accepts.
use astral_project.Base.{
  ◌∷◌, [], refl, ◌⊎◌, inl, inr, ap, list_beq, any-eq-false, ◌≤◌, ◌<◌, ◌≡◌, ◌∙◌, Bool, true, false,
  not, ◌||◌, Option, none, some, List, arith, ltb, if◌then◌else◌, ltb_iff, Bool-cases, or-eq-false,
  ◌==◌, nat_eq, string_eq, list_eq, option_eq, pair_eq, ok, err, >>=-eq-ok, raise_if-eq-ok, length,
  is_empty, any, all, All, All-map, contains, Text, codes, int_eq,
}
use astral_project.Base.Dict.{Dict, get}
use astral_project.Grant.Payload.{same_set}
use astral_project.Framing.Request.{
  Request, JsonValue, string, parse_request, client_request, in_texts, identifier, at_key,
  payload_of, allowed_operations, text_of, bare_operations, keys, base_fields, is_one, is_text,
  client_result, make_response, invalid_response, rejected_request,
}

-- A text of 1 to 128 ASCII characters.
abbrev pub IsIdentifier : Text → Type 0
IsIdentifier t = (is_empty t ≡ false) × (length t ≤ 128) × All (λ c. c < 128) t

identifier_sound : {O : Type 0} (v : JsonValue O) (t : Text) → identifier v ≡ ok t → IsIdentifier t
unfolding identifier
identifier_sound (string s) t h =
    let (sized, h1) = raise_if-eq-ok (is_empty s || ltb 128 (length s)) _ _ h in
    let (ascii, h2) = raise_if-eq-ok (any (λ c. not (ltb c 128)) s) _ _ h1 in
    let e : s ≡ t = cc in
    let (filled, short) = or-eq-false (is_empty s) (ltb 128 (length s)) sized in
    rw (← e) (
      filled,
      ground (arith, short),
      All-map _ _ s (λ c q. ground (arith, q)) (any-eq-false (λ c. not (ltb c 128)) s ascii),
    )
identifier_sound (JsonValue.integer n) t h = cc
identifier_sound (JsonValue.real n d) t h = cc
identifier_sound (JsonValue.boolean b) t h = cc
identifier_sound JsonValue.null t h = cc
identifier_sound (JsonValue.array vs) t h = cc
identifier_sound (JsonValue.object o) t h = cc

in_texts_sound :
    {O : Type 0} (v : JsonValue O) (ts : List Text)
    → in_texts v ts ≡ ok true
    → contains ts (text_of v) ≡ true
unfolding in_texts
in_texts_sound (string s) ts h = cc
in_texts_sound (JsonValue.integer n) ts h = cc
in_texts_sound (JsonValue.real n d) ts h = cc
in_texts_sound (JsonValue.boolean b) ts h = cc
in_texts_sound JsonValue.null ts h = cc
in_texts_sound (JsonValue.array vs) ts h = cc
in_texts_sound (JsonValue.object o) ts h = cc

payload_sound :
    {O : Type 0} (p : Option (JsonValue O)) (v : JsonValue O) (out : Option O)
    → in_texts v allowed_operations ≡ ok true
    → payload_of p v ≡ ok out
    → (out ≡ none) ⊎ (contains bare_operations (text_of v) ≡ false)
unfolding payload_of in_texts
payload_sound none v out a h = inl (cc)
payload_sound (some JsonValue.null) v out a h = inl (cc)
payload_sound (some (JsonValue.object o)) (string s) out a h =
    let (bare, rest) = raise_if-eq-ok (contains bare_operations s) _ _ h in inr bare
payload_sound (some (JsonValue.object o)) (JsonValue.integer n) out a h = cc
payload_sound (some (JsonValue.object o)) (JsonValue.real n d) out a h = cc
payload_sound (some (JsonValue.object o)) (JsonValue.boolean b) out a h = cc
payload_sound (some (JsonValue.object o)) JsonValue.null out a h = cc
payload_sound (some (JsonValue.object o)) (JsonValue.array vs) out a h = cc
payload_sound (some (JsonValue.object o)) (JsonValue.object o') out a h = cc
payload_sound (some (string s)) v out a h = cc
payload_sound (some (JsonValue.integer n)) v out a h = cc
payload_sound (some (JsonValue.real n d)) v out a h = cc
payload_sound (some (JsonValue.boolean b)) v out a h = cc
payload_sound (some (JsonValue.array vs)) v out a h = cc

-- A request that is accepted has one of the permitted operations, identifiers of 1 to 128 ASCII
-- characters, and no payload if its operation takes none.
pub parse_sound :
    {O : Type 0} (d : Dict Text (JsonValue O)) (r : Request O)
    → parse_request d ≡ ok r
    → (contains allowed_operations r.operation ≡ true)
      × IsIdentifier r.request_id
      × IsIdentifier r.cancellation_id
      × ((r.payload ≡ none) ⊎ (contains bare_operations r.operation ≡ false))
unfolding parse_request
parse_sound {O} d r h =
    let (fields, h1) =
      raise_if-eq-ok
        (not (same_set (keys d) base_fields || same_set (keys d) (codes "payload" ∷ base_fields))) _
        _ h in
    let (version, h2) =
      raise_if-eq-ok
        (not (is_one (at_key (codes "version") d))
          || not (is_text (codes "request") (at_key (codes "kind") d)))
        _ _ h1 in
    let (permitted, p, h3) =
      >>=-eq-ok (in_texts (at_key (codes "operation") d) allowed_operations) _ h2 in
    let (allowed, h4) = raise_if-eq-ok (not permitted) _ _ h3 in
    let (payload, q, h5) =
      >>=-eq-ok (payload_of (get (codes "payload") d) (at_key (codes "operation") d)) _ h4 in
    let (request_id, i, h6) = >>=-eq-ok (identifier (at_key (codes "request_id") d)) _ h5 in
    let (cancellation_id, j, h7) =
      >>=-eq-ok (identifier (at_key (codes "cancellation_id") d)) _ h6 in
    let result : Request O = record {
      request_id = request_id;
      cancellation_id = cancellation_id;
      operation = text_of (at_key (codes "operation") d);
      payload = payload;
    } in
    let e : result ≡ r = cc in
    let yes : permitted ≡ true = ground (arith, allowed) in
    let chosen : in_texts (at_key (codes "operation") d) allowed_operations ≡ ok true =
      p ∙ ap ok yes in
    rw (← e) (
      in_texts_sound (at_key (codes "operation") d) allowed_operations chosen,
      identifier_sound (at_key (codes "request_id") d) request_id i,
      identifier_sound (at_key (codes "cancellation_id") d) cancellation_id j,
      payload_sound (get (codes "payload") d) (at_key (codes "operation") d) payload chosen q,
    )

identifier_complete :
    (O : Type 0) (t : Text) → IsIdentifier t → identifier {O = O} (string t) ≡ ok t
unfolding identifier any
identifier_complete O t (filled, short, ascii) =
    let fits : ltb 128 (length t) ≡ false = ground (arith, short) in
    rw (filled, fits, all_ascii t ascii) refl
  where
    all_ascii : (s : Text) → All (λ c. c < 128) s → any (λ c. not (ltb c 128)) s ≡ false
    all_ascii [] a = refl
    all_ascii (c ∷ s) a = let q : ltb c 128 ≡ true = (ltb_iff c 128).1 a.0 in rw q (all_ascii s a.1)

-- The request that the client builds is accepted as it is, if its operation is permitted, its
-- identifiers are of 1 to 128 ASCII characters, and it has no payload where its operation takes none.
pub parse-client_request :
    {O : Type 0} (r : Request O)
    → contains allowed_operations r.operation ≡ true
    → IsIdentifier r.request_id
    → IsIdentifier r.cancellation_id
    → ((r.payload ≡ none) ⊎ (contains bare_operations r.operation ≡ false))
    → parse_request (client_request r) ≡ ok r
unfolding parse_request client_request in_texts at_key get same_set all contains list_beq payload_of
parse-client_request {O} r allowed id1 id2 bare = by_payload r.payload bare
  where
    with_payload : Option O → Request O
    with_payload p = record r { payload = p }

    by_payload :
        (p : Option O)
        → (p ≡ none) ⊎ (contains bare_operations r.operation ≡ false)
        → parse_request (client_request (with_payload p)) ≡ ok (with_payload p)
    by_payload none bare =
        rw
          (
            allowed,
            identifier_complete O r.request_id id1,
            identifier_complete O r.cancellation_id id2,
          )
          refl
    by_payload (some o) (inl e) = cc
    by_payload (some o) (inr e) =
        rw
          (
            allowed,
            e,
            identifier_complete O r.request_id id1,
            identifier_complete O r.cancellation_id id2,
          )
          refl

-- The client takes the result of a response to its own request if the response reports success,
-- raises the rejection if it does not, and refuses every response to a request with another
-- identifier as invalid.
pub client-make_response :
    {O : Type 0} (r : Request O) (request_id : Text) (success : Bool) (result : O)
    → client_result request_id (make_response r success result) ≡ (
        if r.request_id == request_id
        then if success then ok result else err rejected_request
        else err invalid_response)
unfolding client_result make_response at_key get list_beq
client-make_response r request_id true result = elim (Bool-cases (r.request_id == request_id)) [
  | inl e ↦ rw (client_result, e) refl
  | inr e ↦ rw (client_result, e) refl
]
client-make_response r request_id false result = elim (Bool-cases (r.request_id == request_id)) [
  | inl e ↦ rw (client_result, e) refl
  | inr e ↦ rw (client_result, e) refl
]
