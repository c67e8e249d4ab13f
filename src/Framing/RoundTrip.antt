-- ===== src/Framing/RoundTrip.antt =====
-- daemon/protocol.py and server/protocol.py: what is written is read back, in whatever pieces it comes.
use astral_project.Base.{
  ◌∷◌, [], refl, ℕ, ◌<◌, ◌≡◌, ◌++◌, arith, nat_eq, string_eq, list_eq, option_eq, pair_eq, ok,
  length, Bytes, int_eq, Option, some, is_empty, ◌||◌, ltb, false, Result, Option-cases, inl, err,
  inr, raise_if-eq-ok, not, or-eq-false, ◌&&◌, ◌∙◌, ap, leb, sym,
}
use astral_project.Framing.Stream.{Stream, Flowing, concat, read_loop-Reads, read_exact}
use astral_project.Framing.Frame.{
  unpack_length, pack_length, encode, receive, object_of, Decoded, decoded, max_frame_bytes,
  daemon_error, write_frame, read_outer_response, frame_error,
}
use astral_project.Core.{AstralError}

pub unpack-pack : (n : ℕ) → n < 4294967296 → unpack_length (pack_length n) ≡ n
unfolding unpack_length pack_length
unpack-pack n h = omega (arith, h)

-- A body behind its length, read in two parts.
pub framed-Reads :
    {E : Type 0} (e : E) (body rest : Bytes) (s : Stream)
    → length body < 4294967296
    → Flowing s
    → concat s ≡ (pack_length (length body) ++ body) ++ rest
    → (s1 s2 : Stream) × (read_exact e 4 s ≡ ok (pack_length (length body), s1))
      × (read_exact e (length body) s1 ≡ ok (body, s2))
      × (concat s2 ≡ rest)
      × Flowing s2
unfolding read_exact pack_length
framed-Reads e body rest s small flowing c =
    let (s1, q1, c1, f1) =
      read_loop-Reads e 4 (pack_length (length body)) (body ++ rest) s (omega arith) flowing c in
    let (s2, q2, c2, f2) = read_loop-Reads e (length body) body rest s1 (omega arith) f1 c1 in
    (s1, s2, q1, q2, c2, f2)

pub in_range :
    (limit : ℕ) (body : Bytes)
    → is_empty body ≡ false
    → ltb limit (length body) ≡ false
    → not (ltb 0 (length body) && leb (length body) limit) ≡ false
in_range limit [] filled short = cc
in_range limit (x ∷ body) filled short = ground (arith, short)

-- A frame that `encode` makes is received as the payload that it was made of, whatever follows it and
-- in whatever pieces it comes, if the decoder of JSON reads what the encoder wrote; what follows is
-- left for the next frame.
pub receive-encode :
    {P : Type 0} (json_dumps : P → Option Bytes) (json_loads : Bytes → Decoded P)
    → ((p : P) (b : Bytes) → json_dumps p ≡ some b → json_loads b ≡ decoded p)
    → (payload : P) (frame rest : Bytes) (s : Stream)
    → encode json_dumps json_loads payload ≡ ok frame
    → Flowing s
    → concat s ≡ frame ++ rest
    → (s' : Stream) × (receive json_dumps json_loads s ≡ ok (payload, s'))
      × (concat s' ≡ rest)
      × Flowing s'
unfolding encode receive object_of
receive-encode {P} json_dumps json_loads inverse payload frame rest s h flowing c =
    elim (Option-cases (json_dumps payload)) [
      | inl e ↦
          let bad : ◌≡◌ {A = Result AstralError Bytes}
              (err (daemon_error "frame payload is not JSON serializable")) (ok frame) =
            rw (encode, e) at h in
          cc
      | inr (body, e) ↦
          let h' = rw (encode, e) at h in
          let (fits, made) =
            raise_if-eq-ok (is_empty body || ltb max_frame_bytes (length body)) _ _ h' in
          read_back body e fits made
    ]
  where
    read_back :
        (body : Bytes)
        → json_dumps payload ≡ some body
        → (is_empty body || ltb max_frame_bytes (length body)) ≡ false
        → ◌≡◌ {A = Result AstralError Bytes} (ok (pack_length (length body) ++ body)) (ok frame)
        → (s' : Stream) × (receive json_dumps json_loads s ≡ ok (payload, s'))
          × (concat s' ≡ rest)
          × Flowing s'
    read_back body e fits made =
        let (filled, short) =
          or-eq-false (is_empty body) (ltb max_frame_bytes (length body)) fits in
        let range = in_range max_frame_bytes body filled short in
        let small : length body < 4294967296 = ground (arith, short) in
        let is_frame : pack_length (length body) ++ body ≡ frame = cc in
        let (s1, s2, q1, q2, c2, f2) =
          framed-Reads (daemon_error "frame ended before declared length") body rest s small flowing
            (c ∙ ap (λ x. x ++ rest) (sym is_frame)) in
        (
          s2,
          rw (receive, q1, unpack-pack (length body) small, range, q2, inverse payload body e) refl,
          c2,
          f2,
        )

below_bound :
    (n limit : ℕ) → limit < 4294967296 → not (ltb 0 n && leb n limit) ≡ false → n < 4294967296
below_bound n limit bound h = ground arith

-- A frame that the server writes is read as what its body decodes to, whatever follows it and in
-- whatever pieces it comes, if the limit fits the four bytes of the length.
pub read_outer-write_frame :
    {P : Type 0} (max_outer_bytes : ℕ) (canonical_loads : Bytes → Result AstralError (Option P))
    (body : Bytes) (payload : P) (frame rest : Bytes) (s : Stream)
    → max_outer_bytes < 4294967296
    → canonical_loads body ≡ ok (some payload)
    → write_frame max_outer_bytes body ≡ ok frame
    → Flowing s
    → concat s ≡ frame ++ rest
    → (s' : Stream) × (read_outer_response max_outer_bytes canonical_loads s ≡ ok (payload, s'))
      × (concat s' ≡ rest)
      × Flowing s'
unfolding write_frame read_outer_response
read_outer-write_frame max_outer_bytes canonical_loads body payload frame rest s bound loads h
      flowing c =
    let (range, made) =
      raise_if-eq-ok (not (ltb 0 (length body) && leb (length body) max_outer_bytes)) _ _ h in
    let small : length body < 4294967296 = below_bound (length body) max_outer_bytes bound range in
    let is_frame : pack_length (length body) ++ body ≡ frame = cc in
    let (s1, s2, q1, q2, c2, f2) =
      framed-Reads (frame_error "truncated outer session frame") body rest s small flowing
        (c ∙ ap (λ x. x ++ rest) (sym is_frame)) in
    (
      s2,
      rw (read_outer_response, q1, unpack-pack (length body) small, range, q2, loads) refl,
      c2,
      f2,
    )
