-- ===== src/Base/Texts.antt =====
-- Python's `str` as the list of its code points, `bytes` as the list of its bytes, and the string
-- operations that the code uses on them.
use Prim.Native.Nat.{ℕ, ◌+◌, ◌/◌, ◌%◌}
use Prim.Native.Char.{code}
use Prim.Native.String.{String}
use mathlib.Core.Path.{◌≡◌, refl, sym, ap, ap₂, ◌∙◌}
use mathlib.Core.Logic.{◌≢◌, inl, inr}
use mathlib.Core.Bool.{Bool, true, false, ◌&&◌, ◌||◌}
use mathlib.Core.List.{List, [], ◌∷◌, ◌++◌}
use astral_project.Base.Tests.{ltb, if◌then◌else◌, Bool-cases}
use astral_project.Base.Equality.{◌==◌, ==_iff, ==_refl, nat_eq}

abbrev pub Text : Type 0
Text = List ℕ

abbrev pub Bytes : Type 0
Bytes = List ℕ

-- A literal of the source.
abbrev pub codes : String → Text
codes String.[] = []
codes (String.◌∷◌ c s) = code c ∷ codes s

-- `text.startswith(prefix)`
unfoldable pub starts_with : Text → Text → Bool
starts_with text [] = true
starts_with [] (p ∷ ps) = false
starts_with (c ∷ text) (p ∷ ps) = c == p && starts_with text ps

-- `"c" in text`
unfoldable pub has_char : ℕ → Text → Bool
has_char c [] = false
has_char c (d ∷ text) = d == c || has_char c text

abbrev extend_first : ℕ → List Text → List Text
extend_first c [] = (c ∷ []) ∷ []
extend_first c (part ∷ parts) = (c ∷ part) ∷ parts

-- `text.split(sep)` for a separator of one character
unfoldable pub split : ℕ → Text → List Text
split sep [] = [] ∷ []
split sep (c ∷ text) =
    let parts = split sep text in if c == sep then [] ∷ parts else extend_first c parts

-- `text.encode("utf-8")`, one character
unfoldable pub utf8_char : ℕ → Bytes
utf8_char c =
    if ltb c 0x80
    then c ∷ []
    else if ltb c 0x800
    then (0xC0 + c / 64) ∷ (0x80 + c % 64) ∷ []
    else if ltb c 0x10000
    then (0xE0 + c / 4096) ∷ (0x80 + c / 64 % 64) ∷ (0x80 + c % 64) ∷ []
    else (0xF0 + c / 262144) ∷ (0x80 + c / 4096 % 64) ∷ (0x80 + c / 64 % 64) ∷ (0x80 + c % 64) ∷ []

-- `str.encode`, of a text without lone surrogates, which it refuses
unfoldable pub encode_utf8 : Text → Bytes
unfolding utf8_char
encode_utf8 [] = []
encode_utf8 (c ∷ text) = utf8_char c ++ encode_utf8 text

pub starts_with-append : (p s : Text) → starts_with (p ++ s) p ≡ true
unfolding starts_with
starts_with-append [] s = refl
starts_with-append (c ∷ p) s = rw (==_refl c) (starts_with-append p s)

-- A text that starts with a prefix is the prefix and a rest.
pub starts_with-split :
    (text p : Text) → starts_with text p ≡ true → (rest : Text) × (text ≡ p ++ rest)
unfolding starts_with
starts_with-split text [] h = (text, refl)
starts_with-split [] (c ∷ p) h = cc
starts_with-split (d ∷ text) (c ∷ p) h = elim (Bool-cases (d == c)) [
  | inl e ↦ let (rest, q) = starts_with-split text p (rw e at h) in (rest, cc ((==_iff d c).0 e))
  | inr e ↦ let bad : false ≡ true = rw e at h in cc
]

-- `sep.join(parts)` for a separator of one character
unfoldable pub join : ℕ → List Text → Text
join sep [] = []
join sep (part ∷ []) = part
join sep (part ∷ next ∷ parts) = part ++ sep ∷ join sep (next ∷ parts)

-- The parts of a text, never none.
split-ne-nil : (sep : ℕ) (text : Text) → split sep text ≢ []
unfolding split
split-ne-nil sep [] h = cc
split-ne-nil sep (c ∷ text) h = elim (Bool-cases (c == sep)) [
  | inl e ↦ let bad : [] ∷ split sep text ≡ [] = rw e at h in cc
  | inr e ↦ extended (split sep text) (rw e at h)
]
  where
    extended : (parts : List Text) → extend_first c parts ≡ [] → ⊥
    extended [] q = cc
    extended (part ∷ parts) q = cc

join-nil : (sep : ℕ) (parts : List Text) → parts ≢ [] → join sep ([] ∷ parts) ≡ sep ∷ join sep parts
unfolding join
join-nil sep [] h = absurd (h refl)
join-nil sep (part ∷ parts) h = refl

join-extend_first :
    (sep c : ℕ) (parts : List Text) → join sep (extend_first c parts) ≡ c ∷ join sep parts
unfolding join
join-extend_first sep c [] = refl
join-extend_first sep c (part ∷ []) = refl
join-extend_first sep c (part ∷ next ∷ parts) = refl

pub join-split : (sep : ℕ) (text : Text) → join sep (split sep text) ≡ text
unfolding split
join-split sep [] = unfold join in refl
join-split sep (c ∷ text) = elim (Bool-cases (c == sep)) [
  | inl e ↦ rw e (
      join-nil sep (split sep text) (split-ne-nil sep text)
      ∙ ap₂ (λ d r. d ∷ r) (sym ((==_iff c sep).0 e)) (join-split sep text))
  | inr e ↦ rw e (join-extend_first sep c (split sep text) ∙ ap (λ r. c ∷ r) (join-split sep text))
]
