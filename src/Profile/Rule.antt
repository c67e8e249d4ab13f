-- ===== src/Profile/Rule.antt =====
-- profile.py: the enumerations, paths below the home directory, and a rule with its two tests.
use astral_project.Base.{
  String, Bool, true, false, not, ◌&&◌, ◌||◌, [], ◌∷◌, if◌then◌else◌, Eq, ◌==◌, nat_eq, string_eq,
  enum_eq, list_eq, option_eq, pair_eq, Result, ok, ◌>>=◌, ◌>>◌, raise_if, is_empty, any, contains,
  Text, codes, starts_with, has_char, split, join, int_eq,
}
use astral_project.Base.Prefixes.{is_below}

-- `ProfileError`, by its message without the values that the source puts into it
abbrev pub ProfileError : Type 0
ProfileError = String

pub data RuleMode : Type 0 where
  host_ro host_rx private_rw overlay_rw deny : RuleMode

pub data RuleScope : Type 0 where
  exact subtree : RuleScope

pub data Operation : Type 0 where
  lookup stat list read create write truncate rename hardlink symlink unlink : Operation
  mkdir rmdir chmod chown xattr lock fsync execute : Operation

pub data Sensitivity : Type 0 where
  configuration credential application_state executables cache other : Sensitivity

unfoldable pub RuleMode-discrete : Discrete RuleMode
RuleMode-discrete = hlevel

unfoldable pub RuleScope-discrete : Discrete RuleScope
RuleScope-discrete = hlevel

unfoldable pub Operation-discrete : Discrete Operation
Operation-discrete = hlevel

instance abbrev pub rule_mode_eq : Eq RuleMode
rule_mode_eq = enum_eq RuleMode-discrete

instance abbrev pub rule_scope_eq : Eq RuleScope
rule_scope_eq = enum_eq RuleScope-discrete

instance abbrev pub operation_eq : Eq Operation
operation_eq = enum_eq Operation-discrete

abbrev pub is_deny : RuleMode → Bool
is_deny deny = true
is_deny _ = false

abbrev pub is_host_rx : RuleMode → Bool
is_host_rx host_rx = true
is_host_rx _ = false

-- `mode in {RuleMode.PRIVATE_RW, RuleMode.OVERLAY_RW}`
abbrev pub is_writable : RuleMode → Bool
is_writable private_rw = true
is_writable overlay_rw = true
is_writable _ = false

abbrev pub is_subtree : RuleScope → Bool
is_subtree subtree = true
is_subtree exact = false

abbrev pub is_list : Operation → Bool
is_list list = true
is_list _ = false

-- `_READ_OPS`
abbrev pub is_read_op : Operation → Bool
is_read_op lookup = true
is_read_op stat = true
is_read_op list = true
is_read_op read = true
is_read_op _ = false

-- `_EXEC_OPS`
abbrev pub is_exec_op : Operation → Bool
is_exec_op execute = true
is_exec_op _ = false

-- `_WRITE_OPS`: all others
abbrev pub is_write_op : Operation → Bool
is_write_op op = not (is_read_op op || is_exec_op op)

-- `part in {"", ".", ".."}`
abbrev pub is_special_part : Text → Bool
is_special_part part = contains ([] ∷ codes "." ∷ codes ".." ∷ []) part

-- `str(PurePosixPath(*parts))` of parts that are neither empty nor `.` and hold no slash joins them.
unfoldable pub normalize_home_path : Text → Result ProfileError Text
normalize_home_path path = do
  raise_if (is_empty path) "home path must be non-empty string"
  raise_if (has_char b'\\' path || has_char 0 path) "home path contains invalid character"
  raise_if (starts_with path (codes "/")) "home path must be relative"
  let parts = split b'/' path
  raise_if (any is_special_part parts) "home path must be normalized and cannot escape"
  ok (join b'/' parts)

pub record Rule : Type 0 where
  pub path : Text
  pub scope : RuleScope
  pub mode : RuleMode
  pub sensitivity : Sensitivity
  pub list_allowed : Bool

-- `Rule.__post_init__`: the value that the constructor leaves, or what it raises
unfoldable pub make_rule : Rule → Result ProfileError Rule
make_rule r = do
  normalized ← normalize_home_path r.path
  raise_if (not (is_subtree r.scope) && r.list_allowed) "exact rule cannot grant directory listing"
  ok (record r { path = normalized })

-- `Rule.matches` on a candidate that is already normalized
unfoldable pub covers : Rule → Text → Bool
covers r candidate = candidate == r.path || (is_subtree r.scope && is_below candidate r.path)

unfoldable pub matches : Rule → Text → Result ProfileError Bool
matches r path = do candidate ← normalize_home_path path; ok (covers r candidate)

unfoldable pub allows : Rule → Operation → Bool
allows r op =
    if is_deny r.mode
    then false
    else if is_read_op op
    then not (is_list op) || r.list_allowed
    else if is_exec_op op
    then is_host_rx r.mode
    else is_writable r.mode
