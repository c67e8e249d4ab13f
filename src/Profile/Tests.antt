-- ===== src/Profile/Tests.antt =====
-- profile.py: runs of the policy on a sample profile, and the theorems at it.
use astral_project.Base.{
  ◌≡◌, refl, true, false, some, List, [], ◌∷◌, nat_eq, string_eq, list_beq, list_eq, option_eq,
  pair_eq, ok, each, any, filter, In, here, there, All, Pairs, contains, Text, codes, starts_with,
  has_char, split, join, pos, int_eq,
}
use astral_project.Base.Order.{sort_by}
use astral_project.Profile.Rule.{
  Rule, exact, subtree, deny, overlay_rw, host_ro, other, credential, read, write, is_writable,
  normalize_home_path, covers, matches, RuleScope-discrete, allows, RuleMode-discrete,
}
use astral_project.Profile.Policy.{
  Profile, Decision, matched_rule, explicit_deny, decision, validate_profile, each_pair,
  filter_result, check_overlap, before, check_conflict,
}
use astral_project.Profile.Decisions.{Permitted, exact_deny, decision_allowed}
use astral_project.Profile.Validated.{decision_order_free, IsNormal, writable_roots_disjoint}

abbrev key_rule : Rule
key_rule = record {
  path = codes ".ssh/id";
  scope = exact;
  mode = deny;
  sensitivity = credential;
  list_allowed = false;
}

abbrev home_rule : Rule
home_rule = record {
  path = codes ".ssh";
  scope = subtree;
  mode = host_ro;
  sensitivity = other;
  list_allowed = true;
}

abbrev work_rule : Rule
work_rule = record {
  path = codes "work";
  scope = subtree;
  mode = overlay_rw;
  sensitivity = other;
  list_allowed = true;
}

abbrev profile_of : List Rule → Profile
profile_of rules = record {
  version = pos 1;
  profile_id = codes "p";
  name = codes "sample";
  unknown_learning = codes "prompt";
  unknown_sealed = codes "hide";
  sealed = false;
  rules = rules;
  revision = pos 1;
}

abbrev sample : Profile
sample = profile_of (home_rule ∷ key_rule ∷ work_rule ∷ [])

abbrev shuffled : Profile
shuffled = profile_of (work_rule ∷ home_rule ∷ key_rule ∷ [])

abbrev note_path : Text
note_path = codes "work/a"

abbrev note_written : Decision
note_written = record {
  allowed = true;
  rule = some work_rule;
  operation = write;
  path = note_path;
  reason = matched_rule;
}

abbrev key_refused : Decision
key_refused = record {
  allowed = false;
  rule = some key_rule;
  operation = read;
  path = codes ".ssh/id";
  reason = explicit_deny;
}

note_writing : decision sample note_path write ≡ ok note_written
unfolding decision normalize_home_path filter_result matches covers before allows sort_by split join
    starts_with has_char any contains list_beq
note_writing = refl

note_writing_shuffled : decision shuffled note_path write ≡ ok note_written
unfolding decision normalize_home_path filter_result matches covers before allows sort_by split join
    starts_with has_char any contains list_beq
note_writing_shuffled = refl

key_reading : decision sample (codes ".ssh/id") read ≡ ok key_refused
unfolding decision normalize_home_path filter_result matches covers before allows sort_by split join
    starts_with has_char any contains list_beq
key_reading = refl

sample-valid : validate_profile sample ≡ ok tt
unfolding validate_profile each_pair check_overlap check_conflict each matches covers
    normalize_home_path split join starts_with has_char any contains list_beq filter
    RuleScope-discrete RuleMode-discrete
sample-valid = refl

sample-IsNormal : All IsNormal sample.rules
unfolding normalize_home_path split join starts_with has_char any contains list_beq
sample-IsNormal = (refl, (refl, (refl, tt)))

decision_allowed_example :
    (r : Rule) × (note_written.rule ≡ some r) × Permitted sample note_path write r
decision_allowed_example = decision_allowed sample note_path write note_writing refl

exact_deny_example : key_refused.allowed ≡ false
exact_deny_example =
    exact_deny sample (codes ".ssh/id") read key_rule (there (here refl)) refl refl refl key_reading

writable_roots_disjoint_example :
    Pairs
      (λ r s.
        is_writable r.mode ≡ true
        → is_writable s.mode ≡ true
        → (path : Text) → covers r path ≡ true
        → ¬ (covers s path ≡ true))
      sample.rules
writable_roots_disjoint_example = writable_roots_disjoint sample sample-IsNormal sample-valid

to_shuffled : (r : Rule) → In r sample.rules → In r shuffled.rules
to_shuffled r (here e) = there (here e)
to_shuffled r (there (here e)) = there (there (here e))
to_shuffled r (there (there (here e))) = here e
to_shuffled r (there (there (there m))) = elim m [ ]

from_shuffled : (r : Rule) → In r shuffled.rules → In r sample.rules
from_shuffled r (here e) = there (there (here e))
from_shuffled r (there (here e)) = here e
from_shuffled r (there (there (here e))) = there (here e)
from_shuffled r (there (there (there m))) = elim m [ ]

decision_order_free_example : note_written.allowed ≡ note_written.allowed
decision_order_free_example =
    decision_order_free sample shuffled note_path write sample-valid to_shuffled from_shuffled refl
      note_writing note_writing_shuffled
