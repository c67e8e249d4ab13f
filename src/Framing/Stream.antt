-- ===== src/Framing/Stream.antt =====
-- daemon/protocol.py and server/protocol.py: `_read_exact` over a stream that gives its bytes in pieces.
use astral_project.Base.{
  ℕ, zero, suc, ◌-◌, ◌≤◌, ◌≡◌, refl, sym, ap, ap₂, ◌∙◌, inl, inr, true, false, List, [], ◌∷◌, ◌++◌,
  arith, if◌then◌else◌, Bool-cases, nat_eq, string_eq, list_eq, option_eq, pair_eq, Result, ok, err,
  ◌>>=◌, length, take, drop, is_empty, length-drop, All, Bytes, int_eq,
}

-- The pieces in which the bytes to come arrive.
abbrev pub Stream : Type 0
Stream = List Bytes

unfoldable pub concat : Stream → Bytes
concat [] = []
concat (c ∷ cs) = c ++ concat cs

-- `receiver(count)` and `stream.read(count)`: what is there, but no more than the count
unfoldable pub recv : ℕ → Stream → Bytes × Stream
recv count [] = ([], [])
recv count (c ∷ cs) = (take count c, if is_empty (drop count c) then cs else drop count c ∷ cs)

-- The loop of `_read_exact`: each piece takes a byte or more, so the length is fuel enough.
unfoldable pub read_loop : {E : Type 0} → E → ℕ → ℕ → Stream → Result E (Bytes × Stream)
unfolding recv
read_loop truncated fuel zero s = ok ([], s)
read_loop truncated zero (suc n) s = err truncated
read_loop truncated (suc fuel) (suc n) s =
    let (chunk, s') = recv (suc n) s in
    let later = read_loop truncated fuel (suc n - length chunk) s' in
    if is_empty chunk then err truncated else do (rest, s'') ← later; ok (chunk ++ rest, s'')

-- `_read_exact`
unfoldable pub read_exact : {E : Type 0} → E → ℕ → Stream → Result E (Bytes × Stream)
unfolding read_loop
read_exact truncated length s = read_loop truncated length length s

-- No piece is empty: the stream has not ended before its bytes did.
abbrev pub Flowing : Stream → Type 0
Flowing s = All (λ c. is_empty c ≡ false) s

-- Two ways to cut a list, the first cut not behind the second.
append-cut :
    (xs ys zs ws : Bytes)
    → xs ++ ys ≡ zs ++ ws
    → length xs ≤ length zs
    → (zs ≡ xs ++ drop (length xs) zs) × (ys ≡ drop (length xs) zs ++ ws)
append-cut [] ys zs ws e h = (refl, e)
append-cut (x ∷ xs) ys [] ws e h = absurd (omega (arith, h))
append-cut (x ∷ xs) ys (z ∷ zs) ws e h =
    let tails : xs ++ ys ≡ zs ++ ws = cc in
    let heads : x ≡ z = cc in
    let (front, back) = append-cut xs ys zs ws tails (omega (arith, h)) in
    (ap₂ (λ a b. a ∷ b) (sym heads) front, back)

take-drop : (n : ℕ) (c : Bytes) → take n c ++ drop n c ≡ c
take-drop zero c = refl
take-drop (suc n) [] = refl
take-drop (suc n) (x ∷ c) = ap (λ y. x ∷ y) (take-drop n c)

whole_taken : (n : ℕ) (c : Bytes) → is_empty (drop n c) ≡ true → take n c ≡ c
whole_taken zero [] h = refl
whole_taken zero (x ∷ c) h = cc
whole_taken (suc n) [] h = refl
whole_taken (suc n) (x ∷ c) h = ap (λ y. x ∷ y) (whole_taken n c h)

append_assoc : (xs ys zs : Bytes) → (xs ++ ys) ++ zs ≡ xs ++ (ys ++ zs)
append_assoc [] ys zs = refl
append_assoc (x ∷ xs) ys zs = ap (λ y. x ∷ y) (append_assoc xs ys zs)

concat-recv : (n : ℕ) (s : Stream) → (recv n s).0 ++ concat ((recv n s).1) ≡ concat s
unfolding recv concat
concat-recv n [] = refl
concat-recv n (c ∷ cs) = elim (Bool-cases (is_empty (drop n c))) [
  | inl e ↦ rw (recv, e) (ap (λ x. x ++ concat cs) (whole_taken n c e))
  | inr e ↦
      rw (recv, e)
        (sym (append_assoc (take n c) (drop n c) (concat cs))
          ∙ ap (λ x. x ++ concat cs) (take-drop n c))
]

recv-Flowing : (n : ℕ) (s : Stream) → Flowing s → Flowing ((recv n s).1)
unfolding recv
recv-Flowing n [] f = f
recv-Flowing n (c ∷ cs) f = elim (Bool-cases (is_empty (drop n c))) [
  | inl e ↦ rw (recv, e) f.1
  | inr e ↦ rw (recv, e) (e, f.1)
]

length-take_le : (n : ℕ) (c : Bytes) → length (take n c) ≤ n
length-take_le zero c = omega arith
length-take_le (suc n) [] = omega arith
length-take_le (suc n) (x ∷ c) = omega (arith, length-take_le n c)

-- A piece of a stream that is not at its end.
recv-piece :
    (n : ℕ) (s : Stream) (x : ℕ) (bytes : Bytes)
    → Flowing s
    → concat s ≡ x ∷ bytes
    → (is_empty ((recv (suc n) s).0) ≡ false) × (length ((recv (suc n) s).0) ≤ suc n)
unfolding recv concat
recv-piece n [] x bytes f e = cc
recv-piece n ([] ∷ cs) x bytes f e = let bad : true ≡ false = f.0 in cc
recv-piece n ((y ∷ c) ∷ cs) x bytes f e = (refl, omega (arith, length-take_le n c))

nonempty_length : (c : Bytes) → is_empty c ≡ false → 1 ≤ length c
nonempty_length [] h = cc
nonempty_length (x ∷ c) h = omega arith

-- The stream holds the bytes that are read, and then the rest, in whatever pieces.
abbrev pub Reads : {E : Type 0} → Result E (Bytes × Stream) → Bytes → Bytes → Type 0
Reads {E} result bytes rest =
    (s : Stream) × (◌≡◌ {A = Result E (Bytes × Stream)} result (ok (bytes, s)))
    × (concat s ≡ rest)
    × Flowing s

pub read_loop-Reads :
    {E : Type 0} (e : E) (fuel : ℕ) (bytes rest : Bytes) (s : Stream)
    → length bytes ≤ fuel
    → Flowing s
    → concat s ≡ bytes ++ rest
    → Reads (read_loop e fuel (length bytes) s) bytes rest
unfolding read_loop
read_loop-Reads e fuel [] rest s h f c = (s, refl, c, f)
read_loop-Reads e zero (x ∷ bytes) rest s h f c = absurd (omega (arith, h))
read_loop-Reads {E} e (suc fuel) (x ∷ bytes) rest s h f c =
    let (nonempty, short) = recv-piece n s x (bytes ++ rest) f c in
    let (front, back) =
      append-cut chunk (concat s') (x ∷ bytes) rest (concat-recv (suc n) s ∙ c) short in
    let size : length left ≡ suc n - length chunk = length-drop (length chunk) (x ∷ bytes) in
    let (s'', q, c'', f'') =
      read_loop-Reads e fuel left rest s' (omega (arith, size, nonempty_length chunk nonempty, h))
        (recv-Flowing (suc n) s f) back in
    let q' : ◌≡◌ {A = Result E (Bytes × Stream)} (read_loop e fuel (suc n - length chunk) s')
        (ok (left, s'')) =
      rw size at q in
    (s'', rw (nonempty, q') (rw (← front) refl), c'', f'')
  where
    n : ℕ
    n = length bytes

    chunk : Bytes
    chunk = (recv (suc n) s).0

    s' : Stream
    s' = (recv (suc n) s).1

    left : Bytes
    left = drop (length chunk) (x ∷ bytes)
