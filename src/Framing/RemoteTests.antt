-- ===== src/Framing/RemoteTests.antt =====
-- session/contracts.py: a request with the sample grant, written and read.
use astral_project.Base.{
  ◌∷◌, [], refl, ◌≡◌, Option, some, ◌++◌, nat_eq, string_eq, list_eq, option_eq, pair_eq, Result,
  ok, Bytes, codes, pos, int_eq,
}
use astral_project.Core.{AstralError}
use astral_project.Grant.Types.{CborValue, object, field, last}
use astral_project.Grant.Verify.{SignedGrant, make_signed_grant, canonical_dumps}
use astral_project.Grant.Payload.{fields}
use astral_project.Grant.Tests.{sample_grant, sample-IsGrant, any_id, zeros}
use astral_project.Framing.Stream.{Stream, Flowing, concat}
use astral_project.Framing.Remote.{IsRequest, Decodes, read_remote-write_remote}
use astral_project.Framing.Contracts.{
  RemoteSessionRequest, make_remote_request, read_remote, signed_to_cbor, signed_value,
  write_remote, remote_bytes, remote_value,
}
use astral_project.Framing.Frame.{pack_length}

abbrev signed_sample : SignedGrant
signed_sample = record { grant = sample_grant; signature = zeros 64 }

abbrev request : RemoteSessionRequest
request = record {
  session_id = codes "s";
  session_nonce = zeros 32;
  signed_grant = signed_sample;
  version = pos 1;
}

-- The map of a signed grant has two fields, that of a request more.
abbrev toy_dumps : CborValue → Option Bytes
toy_dumps (object (field k v (field k' v' last))) = some (1 ∷ 1 ∷ [])
toy_dumps _ = some (2 ∷ [])

abbrev toy_loads : Bytes → Result AstralError CborValue
toy_loads (a ∷ b ∷ _) = ok (signed_value signed_sample)
toy_loads _ = ok (remote_value request (1 ∷ 1 ∷ []))

request-IsRequest : IsRequest any_id request
unfolding make_remote_request make_signed_grant
request-IsRequest = record {
  built = refl;
  signed = refl;
  grant = sample-IsGrant;
  session_id = refl;
}

signed-Decodes : Decodes toy_dumps toy_loads (signed_value signed_sample)
unfolding canonical_dumps signed_value fields
signed-Decodes b h = let e : 1 ∷ 1 ∷ [] ≡ b = cc in rw (← e) (refl, refl)

remote-Decodes :
    (signed : Bytes)
    → signed_to_cbor toy_dumps toy_loads any_id signed_sample ≡ ok signed
    → Decodes toy_dumps toy_loads (remote_value request signed)
unfolding signed_to_cbor canonical_dumps signed_value remote_value fields
remote-Decodes signed s b h =
    let e : 1 ∷ 1 ∷ [] ≡ signed = cc in let f : 2 ∷ [] ≡ b = cc in rw (← e, ← f) (refl, refl)

abbrev frame : Bytes
frame = 0 ∷ 0 ∷ 0 ∷ 1 ∷ 2 ∷ []

abbrev pieces : Stream
pieces = (0 ∷ []) ∷ (0 ∷ 0 ∷ 1 ∷ 2 ∷ []) ∷ []

writes : write_remote toy_dumps toy_loads any_id request ≡ ok frame
unfolding write_remote remote_bytes pack_length signed_to_cbor canonical_dumps signed_value
    remote_value fields
writes = refl

comes : concat pieces ≡ frame ++ []
unfolding concat
comes = refl

read_remote-write_remote_example :
    (s' : Stream) × (read_remote toy_dumps toy_loads any_id pieces ≡ ok (request, s'))
    × (concat s' ≡ [])
    × Flowing s'
read_remote-write_remote_example =
    read_remote-write_remote toy_dumps toy_loads any_id request frame [] pieces request-IsRequest
      signed-Decodes remote-Decodes writes (refl, (refl, tt)) comes
