-- ===== src/Framing/Remote.antt =====
-- session/contracts.py: a request to a remote server is read as it was written.
use astral_project.Base.{
  ◌≡◌, Bool, true, Option, nat_eq, string_eq, list_beq, list_eq, option_eq, pair_eq, Result, ok,
  >>=-eq-ok, all, contains, Text, Bytes, int_eq, is_empty, false, ◌++◌, raise_if-eq-ok, ltb, length,
  ◌<◌, arith, ◌∙◌, ap, sym, refl,
}
use astral_project.Core.{AstralError}
use astral_project.Grant.Types.{CborValue}
use astral_project.Grant.Verify.{SignedGrant, canonical_dumps, make_signed_grant}
use astral_project.Grant.Payload.{
  fields, list_fields, same_set, get_field, as_mapping, as_bytes, exact_fields, make_id,
}
use astral_project.Grant.Compare.{lookup_field}
use astral_project.Grant.RoundTrip.{IsGrant, read_grant-grant_payload}
use astral_project.Framing.Contracts.{
  RemoteSessionRequest, remote_bytes, signed_to_cbor, make_remote_request, remote_from_cbor,
  signed_from_cbor, session_payload, session_text, session_bytes, session_int, read_operation,
  remote_value, signed_value, write_remote, read_remote, max_remote_session_bytes, session_error,
}
use astral_project.Framing.Stream.{Stream, Flowing, concat}
use astral_project.Framing.RoundTrip.{in_range, framed-Reads, unpack-pack}
use astral_project.Framing.Frame.{pack_length}

-- A request whose parts their constructors accept.
pub record IsRequest (is_canonical_uuid4 : Text → Bool) (r : RemoteSessionRequest) : Type 0 where
  pub built : make_remote_request r ≡ ok r
  pub signed : make_signed_grant r.signed_grant ≡ ok r.signed_grant
  pub grant : IsGrant is_canonical_uuid4 r.signed_grant.grant
  pub session_id : is_canonical_uuid4 r.session_id ≡ true

-- What the encoder of cbor2 makes of the value is not empty, and the decoder reads it back.
abbrev pub Decodes :
    (CborValue → Option Bytes) → (Bytes → Result AstralError CborValue) → CborValue → Type 0
Decodes cbor2_dumps canonical_loads v =
    (b : Bytes)
    → canonical_dumps cbor2_dumps v ≡ ok b
    → (canonical_loads b ≡ ok v) × (is_empty b ≡ false)

module _ (cbor2_dumps : CborValue → Option Bytes)
    (canonical_loads : Bytes → Result AstralError CborValue)
    (is_canonical_uuid4 : Text → Bool) where
  signed_round_trip :
      (s : SignedGrant) (b : Bytes)
      → make_signed_grant s ≡ ok s
      → IsGrant is_canonical_uuid4 s.grant
      → Decodes cbor2_dumps canonical_loads (signed_value s)
      → signed_to_cbor cbor2_dumps canonical_loads is_canonical_uuid4 s ≡ ok b
      → signed_from_cbor cbor2_dumps canonical_loads is_canonical_uuid4 b ≡ ok s
  unfolding signed_to_cbor signed_from_cbor signed_value fields exact_fields same_set list_fields
      get_field as_mapping as_bytes all contains list_beq
  signed_round_trip s b built grant decodes h =
      rw ((decodes b h).0, read_grant-grant_payload is_canonical_uuid4 s.grant grant) built

  remote_round_trip :
      (r : RemoteSessionRequest) (signed b : Bytes)
      → IsRequest is_canonical_uuid4 r
      → Decodes cbor2_dumps canonical_loads (signed_value r.signed_grant)
      → Decodes cbor2_dumps canonical_loads (remote_value r signed)
      → signed_to_cbor cbor2_dumps canonical_loads is_canonical_uuid4 r.signed_grant ≡ ok signed
      → canonical_dumps cbor2_dumps (remote_value r signed) ≡ ok b
      → remote_from_cbor cbor2_dumps canonical_loads is_canonical_uuid4 b ≡ ok r
  unfolding remote_from_cbor remote_value fields session_payload same_set list_fields session_text
      session_bytes session_int read_operation lookup_field make_id all contains list_beq
  remote_round_trip r signed b is of_signed of_remote e h =
      rw
        (
          (of_remote b h).0,
          is.session_id,
          signed_round_trip r.signed_grant signed is.signed is.grant of_signed e,
        )
        (is.built)

  -- A request to a remote server whose parts their constructors accept is read as it was written,
  -- whatever follows it and in whatever pieces it comes, if the decoder reads back the two maps that
  -- the encoder made of it; what follows is left on the stream.
  pub read_remote-write_remote :
      (r : RemoteSessionRequest) (frame rest : Bytes) (s : Stream)
      → IsRequest is_canonical_uuid4 r
      → Decodes cbor2_dumps canonical_loads (signed_value r.signed_grant)
      → ((signed : Bytes)
          → signed_to_cbor cbor2_dumps canonical_loads is_canonical_uuid4 r.signed_grant ≡ ok signed
          → Decodes cbor2_dumps canonical_loads (remote_value r signed))
      → write_remote cbor2_dumps canonical_loads is_canonical_uuid4 r ≡ ok frame
      → Flowing s
      → concat s ≡ frame ++ rest
      → (s' : Stream) × (read_remote cbor2_dumps canonical_loads is_canonical_uuid4 s ≡ ok (r, s'))
        × (concat s' ≡ rest)
        × Flowing s'
  unfolding write_remote read_remote remote_bytes
  read_remote-write_remote r frame rest s is of_signed of_remote h flowing c =
      let (body, b, h1) =
        >>=-eq-ok (remote_bytes cbor2_dumps canonical_loads is_canonical_uuid4 r) _ h in
      let (short, made) = raise_if-eq-ok (ltb max_remote_session_bytes (length body)) _ _ h1 in
      let (signed, e, h2) =
        >>=-eq-ok (signed_to_cbor cbor2_dumps canonical_loads is_canonical_uuid4 r.signed_grant) _
          b in
      let filled : is_empty body ≡ false = (of_remote signed e body h2).1 in
      let range = in_range max_remote_session_bytes body filled short in
      let small : length body < 4294967296 = ground (arith, short) in
      let is_frame : pack_length (length body) ++ body ≡ frame = cc in
      let (s1, s2, q1, q2, c2, f2) =
        framed-Reads (session_error "remote session frame is truncated") body rest s small flowing
          (c ∙ ap (λ x. x ++ rest) (sym is_frame)) in
      (
        s2,
        rw
            (
              read_remote,
              q1,
              unpack-pack (length body) small,
              range,
              q2,
              remote_round_trip r signed body is of_signed (of_remote signed e) e h2,
            )
            refl,
        c2,
        f2,
      )
