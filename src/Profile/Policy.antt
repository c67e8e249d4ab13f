-- ===== src/Profile/Policy.antt =====
-- profile.py: the profile record, its matcher `decision` and its validation.
use astral_project.Base.{
  ℕ, Bool, true, false, not, ◌&&◌, ◌||◌, Option, none, some, List, [], ◌∷◌, ◌++◌, ltb, leb,
  if◌then◌else◌, ◌==◌, nat_eq, string_eq, list_eq, option_eq, pair_eq, Result, ok, ◌>>=◌, ◌>>◌,
  raise_if, each, length, is_empty, filter, contains, Text, codes, starts_with, has_char, ℤ, pos,
  ltb_ℤ, int_eq,
}
use astral_project.Base.Order.{sort_by}
use astral_project.Profile.Rule.{
  ProfileError, Rule, Operation, lookup, stat, rule_mode_eq, rule_scope_eq, is_deny, is_writable,
  is_subtree, normalize_home_path, matches, allows,
}

pub data Reason : Type 0 where
  opaque_ancestor no_matching_rule explicit_deny denied_by_rule matched_rule : Reason

pub record Decision : Type 0 where
  pub allowed : Bool
  pub rule : Option Rule
  pub operation : Operation
  pub path : Text
  pub reason : Reason

-- The fields of `Profile` that the policy reads.
pub record Profile : Type 0 where
  pub version : ℤ
  pub profile_id : Text
  pub name : Text
  pub unknown_learning : Text
  pub unknown_sealed : Text
  pub sealed : Bool
  pub rules : List Rule
  pub revision : ℤ

unfoldable pub validate_profile_id : Text → Result ProfileError (Unit {0})
validate_profile_id id =
    raise_if
      (is_empty id
        || contains (codes "." ∷ codes ".." ∷ []) id
        || has_char 0 id
        || has_char b'/' id
        || has_char b'\\' id)
      "profile id must be one path component"

-- `Profile.__post_init__`
unfoldable pub make_profile : Profile → Result ProfileError Profile
make_profile p = do
  validate_profile_id p.profile_id
  raise_if (ltb_ℤ p.revision (pos 1)) "revision must be positive"
  ok p

-- `[x for x in xs if test(x)]` where the test may raise
unfoldable pub filter_result :
    (Rule → Result ProfileError Bool) → List Rule → Result ProfileError (List Rule)
filter_result test [] = ok []
filter_result test (r ∷ rs) =
    let rest = filter_result test rs in
    do keep ← test r; kept ← rest; ok (if keep then r ∷ kept else kept)

abbrev pub bit : Bool → ℕ
bit true = 1
bit false = 0

-- The order of the keys `(scope is SUBTREE, -len(path), mode is not DENY)`.
unfoldable pub before : Rule → Rule → Bool
before a b =
    if ltb (bit (is_subtree a.scope)) (bit (is_subtree b.scope))
    then true
    else if ltb (bit (is_subtree b.scope)) (bit (is_subtree a.scope))
    then false
    else if ltb (length b.path) (length a.path)
    then true
    else if ltb (length a.path) (length b.path)
    then false
    else leb (bit (not (is_deny a.mode))) (bit (not (is_deny b.mode)))

-- `key=lambda rule: len(rule.path)`
unfoldable pub shorter : Rule → Rule → Bool
shorter a b = leb (length a.path) (length b.path)

-- `op in {Operation.LOOKUP, Operation.STAT}`
abbrev pub is_traversal : Operation → Bool
is_traversal lookup = true
is_traversal stat = true
is_traversal _ = false

-- What follows `rule = candidates[0]`.
unfoldable pub decide_rule : Operation → Text → Rule → Decision
decide_rule op path r = record {
  allowed = allows r op;
  rule = some r;
  operation = op;
  path = path;
  reason =
      if allows r op
      then matched_rule
      else if is_deny r.mode
      then explicit_deny
      else denied_by_rule;
}

-- The answers when no rule matches; `descendants` is sorted.
unfoldable pub decide_unmatched : Operation → Text → List Rule → Decision
decide_unmatched op path [] = record {
  allowed = false;
  rule = none;
  operation = op;
  path = path;
  reason = no_matching_rule;
}
decide_unmatched op path (r ∷ descendants) = record {
  allowed = false;
  rule = some r;
  operation = op;
  path = path;
  reason = opaque_ancestor;
}

-- `candidates` is sorted; the descendants are looked up only for a traversal.
unfoldable pub decide_candidates : Profile → Operation → Text → List Rule → Decision
unfolding decide_rule decide_unmatched
decide_candidates p op path (r ∷ candidates) = decide_rule op path r
decide_candidates p op path [] = decide_unmatched op path (
    if is_traversal op
    then sort_by shorter (filter (λ r. starts_with r.path (path ++ codes "/")) p.rules)
    else [])

unfoldable pub decision : Profile → Text → Operation → Result ProfileError Decision
unfolding decide_candidates
decision p path op = do
  normalized ← normalize_home_path path
  candidates ← filter_result (λ r. matches r normalized) p.rules
  ok (decide_candidates p op normalized (sort_by before candidates))

-- `_overlap`; Python's `or` does not call the second test if the first holds
unfoldable pub overlap : Rule → Rule → Result ProfileError Bool
overlap left right = do
  first ← matches left right.path
  if first then ok true else matches right left.path

-- The test of the second loop of `validate_profile`.
unfoldable pub conflict : Rule → Rule → Bool
conflict left right =
    left.path == right.path
    && left.scope == right.scope
    && not (left.mode == right.mode)
    && not (is_deny left.mode)
    && not (is_deny right.mode)

-- `for index, left in enumerate(rules): for right in rules[index + 1:]: test(left, right)`
unfoldable pub each_pair :
    (Rule → Rule → Result ProfileError (Unit {0})) → List Rule → Result ProfileError (Unit {0})
each_pair test [] = ok tt
each_pair test (r ∷ rs) = let rest = each_pair test rs in each (test r) rs >> rest

unfoldable pub check_overlap : Rule → Rule → Result ProfileError (Unit {0})
unfolding overlap
check_overlap left right = do both ← overlap left right; raise_if both "overlapping writable roots"

unfoldable pub check_conflict : Rule → Rule → Result ProfileError (Unit {0})
unfolding conflict
check_conflict left right = raise_if (conflict left right) "equal-specificity conflict"

unfoldable pub validate_profile : Profile → Result ProfileError (Unit {0})
validate_profile p = do
  raise_if (not (p.version == pos 1)) "unsupported profile version"
  raise_if (not (contains (codes "prompt" ∷ codes "deny" ∷ []) p.unknown_learning))
      "unknown_learning must be prompt or deny"
  raise_if (not (contains (codes "hide" ∷ codes "deny" ∷ []) p.unknown_sealed))
      "unknown_sealed must be hide or deny"
  each_pair check_overlap (filter (λ r. is_writable r.mode) p.rules)
  each_pair check_conflict p.rules
