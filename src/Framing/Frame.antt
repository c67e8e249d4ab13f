-- ===== src/Framing/Frame.antt =====
-- daemon/protocol.py and server/protocol.py: frames, a length of four bytes before a body. The JSON
-- encoder and decoder of Python and the strict CBOR decoder are parameters.
use astral_project.Base.{
  ◌/◌, ◌%◌, ◌*◌, ℕ, ◌+◌, String, not, ◌&&◌, ◌||◌, Option, none, some, [], ◌∷◌, ◌++◌, ltb, leb,
  nat_eq, string_eq, list_eq, option_eq, pair_eq, Result, ok, err, ◌>>=◌, ◌>>◌, raise_if, length,
  is_empty, Bytes, int_eq,
}
use astral_project.Core.{AstralError, astral_error, daemon_protocol, protocol_frame}
use astral_project.Framing.Stream.{Stream, read_exact}

-- `MAX_FRAME_BYTES`
abbrev pub max_frame_bytes : ℕ
max_frame_bytes = 65536

-- `struct.pack("!I", n)`, for a number below 2 ^ 32
unfoldable pub pack_length : ℕ → Bytes
pack_length n = n / 16777216 % 256 ∷ n / 65536 % 256 ∷ n / 256 % 256 ∷ n % 256 ∷ []

-- `struct.unpack("!I", header)[0]`, for a header of four bytes
unfoldable pub unpack_length : Bytes → ℕ
unpack_length (a ∷ b ∷ c ∷ d ∷ _) = a * 16777216 + b * 65536 + c * 256 + d
unpack_length _ = 0

-- `_error` of daemon/protocol.py and `_frame_error` of server/protocol.py
abbrev pub daemon_error : String → AstralError
daemon_error message = astral_error daemon_protocol message

abbrev pub frame_error : String → AstralError
frame_error message = astral_error protocol_frame message

-- What decoding the bytes of a body comes to.
pub data Decoded (P : Type 0) : Type 0 where
  decoded : P → Decoded P
  no_object : Decoded P
  malformed : Decoded P

module _ {P : Type 0} (json_dumps : P → Option Bytes) (json_loads : Bytes → Decoded P) where
  -- `encode`
  unfoldable pub encode : P → Result AstralError Bytes
  unfolding pack_length
  encode payload = elim (json_dumps payload) [
    | none ↦ err (daemon_error "frame payload is not JSON serializable")
    | some body ↦ do
      raise_if (is_empty body || ltb max_frame_bytes (length body))
          (daemon_error "frame payload exceeds size limit")
      ok (pack_length (length body) ++ body)
  ]

  unfoldable pub object_of : Decoded P → Result AstralError P
  object_of malformed = err (daemon_error "frame payload is not valid JSON")
  object_of no_object = err (daemon_error "frame payload must be an object")
  object_of (decoded payload) = ok payload

  -- `receive`
  unfoldable pub receive : Stream → Result AstralError (P × Stream)
  unfolding read_exact unpack_length object_of
  receive s = do
    (header, s1) ← read_exact (daemon_error "frame ended before declared length") 4 s
    let size = unpack_length header
    raise_if (not (ltb 0 size && leb size max_frame_bytes))
        (daemon_error "frame length is outside allowed range")
    (body, s2) ← read_exact (daemon_error "frame ended before declared length") size s1
    payload ← object_of (json_loads body)
    ok (payload, s2)

module _ (max_outer_bytes : ℕ) where
  -- `_write_frame`, by the bytes that it writes
  unfoldable pub write_frame : Bytes → Result AstralError Bytes
  unfolding pack_length
  write_frame payload = do
    raise_if (not (ltb 0 (length payload) && leb (length payload) max_outer_bytes))
        (frame_error "outer response frame exceeds limit")
    ok (pack_length (length payload) ++ payload)

  -- `read_outer_response`
  unfoldable pub read_outer_response :
      {P : Type 0}
      → (Bytes → Result AstralError (Option P))
      → Stream
      → Result AstralError (P × Stream)
  unfolding read_exact unpack_length
  read_outer_response canonical_loads s = do
    (header, s1) ← read_exact (frame_error "truncated outer session frame") 4 s
    let size = unpack_length header
    raise_if (not (ltb 0 size && leb size max_outer_bytes))
        (frame_error "outer response length is outside protocol limit")
    (body, s2) ← read_exact (frame_error "truncated outer session frame") size s1
    result ← canonical_loads body
    elim result [
      | none ↦ err (frame_error "outer response is not a map")
      | some payload ↦ ok (payload, s2)
    ]
