-- ===== src/Framing/Tests.antt =====
-- daemon/protocol.py and server/protocol.py: a frame of one byte that comes in three pieces.
use astral_project.Base.{
  ◌∷◌, [], refl, ℕ, ◌≡◌, ap, Option, none, some, ◌++◌, arith, nat_eq, string_eq, list_eq, option_eq,
  pair_eq, Result, ok, Bytes, int_eq,
}
use astral_project.Core.{AstralError}
use astral_project.Framing.Stream.{Stream, Flowing, concat}
use astral_project.Framing.Frame.{
  Decoded, decoded, malformed, encode, read_outer_response, receive, write_frame, pack_length,
}
use astral_project.Framing.RoundTrip.{read_outer-write_frame, receive-encode}

abbrev toy_dumps : ℕ → Option Bytes
toy_dumps n = some (n ∷ [])

abbrev toy_loads : Bytes → Decoded ℕ
toy_loads [] = malformed
toy_loads (x ∷ _) = decoded x

toy_inverse : (p : ℕ) (b : Bytes) → toy_dumps p ≡ some b → toy_loads b ≡ decoded p
toy_inverse p [] h = cc
toy_inverse p (x ∷ xs) h = let q : p ∷ [] ≡ x ∷ xs = cc in let e : x ≡ p = cc in ap decoded e

abbrev pieces : Stream
pieces = (0 ∷ 0 ∷ []) ∷ (0 ∷ []) ∷ (1 ∷ 7 ∷ 9 ∷ []) ∷ []

abbrev frame : Bytes
frame = 0 ∷ 0 ∷ 0 ∷ 1 ∷ 7 ∷ []

encodes : encode toy_dumps toy_loads 7 ≡ ok frame
unfolding encode pack_length
encodes = refl

comes : concat pieces ≡ frame ++ 9 ∷ []
unfolding concat
comes = refl

receive-encode_example :
    (s' : Stream) × (receive toy_dumps toy_loads pieces ≡ ok (7, s'))
    × (concat s' ≡ 9 ∷ [])
    × Flowing s'
receive-encode_example =
    receive-encode toy_dumps toy_loads toy_inverse 7 frame (9 ∷ []) pieces encodes
      (refl, (refl, (refl, tt))) comes

abbrev toy_canonical : Bytes → Result AstralError (Option ℕ)
toy_canonical [] = ok none
toy_canonical (x ∷ _) = ok (some x)

writes : write_frame 100 (7 ∷ []) ≡ ok frame
unfolding write_frame pack_length
writes = refl

read_outer-write_frame_example :
    (s' : Stream) × (read_outer_response 100 toy_canonical pieces ≡ ok (7, s'))
    × (concat s' ≡ 9 ∷ [])
    × Flowing s'
read_outer-write_frame_example =
    read_outer-write_frame 100 toy_canonical (7 ∷ []) 7 frame (9 ∷ []) pieces (omega arith) refl
      writes (refl, (refl, (refl, tt))) comes
