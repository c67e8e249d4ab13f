-- ===== src/Audit/Schema.antt =====
-- audit/events.py: what a payload may hold: its keys, its reasons, and the patterns of secrets, of
-- paths and of command arguments.
use astral_project.Base.{
  ℕ, ◌+◌, String, Bool, true, false, ◌&&◌, ◌||◌, Option, none, some, List, [], ◌∷◌, ◌++◌, map, leb,
  if◌then◌else◌, ◌==◌, nat_eq, string_eq, list_eq, option_eq, pair_eq, any, Text, codes,
  starts_with, int_eq,
}

-- A character as a pattern with `re.IGNORECASE` sees it against the letters of ASCII: besides the
-- capitals, the dotted and the dotless i, the long s and the sign of Kelvin.
unfoldable pub fold_case : ℕ → ℕ
fold_case c =
    if leb b'A' c && leb c b'Z'
    then c + 32
    else if c == 0x130 || c == 0x131
    then b'i'
    else if c == 0x17F
    then b's'
    else if c == 0x212A
    then b'k'
    else c

unfoldable pub fold_text : Text → Text
unfolding fold_case
fold_text text = map fold_case text

-- `\s`
unfoldable pub is_space : ℕ → Bool
is_space c =
    (leb 9 c && leb c 13)
    || (leb 28 c && leb c 32)
    || c == 0x85
    || c == 0xA0
    || c == 0x1680
    || (leb 0x2000 c && leb c 0x200A)
    || c == 0x2028
    || c == 0x2029
    || c == 0x202F
    || c == 0x205F
    || c == 0x3000

-- `pattern.search(text)` for a pattern that is tried at each place.
unfoldable pub search_text : (Text → Bool) → Text → Bool
search_text here_matches [] = here_matches []
search_text here_matches (c ∷ text) = here_matches (c ∷ text) || search_text here_matches text

abbrev pub starts_with_any : List String → Text → Bool
starts_with_any words text = any (λ word. starts_with text (codes word)) words

-- `_SECRET_KEY.search(key)`
unfoldable pub is_secret_key : Text → Bool
unfolding search_text fold_text
is_secret_key key = search_text (starts_with_any words) (fold_text key)
  where
    words : List String
    words =
        "private" ∷ "secret" ∷ "credential" ∷ "password" ∷ "token" ∷ "content" ∷ "environment"
        ∷ "env" ∷ "identityfile" ∷ "identity_file" ∷ "identity-file" ∷ []

-- The rest of a text behind a prefix.
unfoldable pub after : Text → Text → Option Text
after [] text = some text
after (p ∷ ps) [] = none
after (p ∷ ps) (c ∷ text) = if c == p then after ps text else none

-- The rest behind all characters of a class, and whether there was one: `[class]+`, where what
-- follows in the pattern is not in the class.
unfoldable pub skip_class : (ℕ → Bool) → Text → Text
skip_class p [] = []
skip_class p (c ∷ text) = if p c then skip_class p text else c ∷ text

abbrev is_blank : ℕ → Bool
is_blank c = c == b' ' || c == b'-'

-- `word[ -]+`, at the start of a text
unfoldable pub word_and_blanks : String → Text → Option Text
unfolding after skip_class
word_and_blanks word text = do_word (after (codes word) text)
  where
    do_word : Option Text → Option Text
    do_word (some (c ∷ rest)) = if is_blank c then some (skip_class is_blank rest) else none
    do_word _ = none

abbrev and_then : Option Text → (Text → Option Text) → Option Text
and_then none next = none
and_then (some text) next = next text

-- The text itself where a part of the pattern does not match.
abbrev optional_part : (Text → Option Text) → Text → Text
optional_part part text = elim (part text) [ none ↦ text | some rest ↦ rest ]

abbrev matched : Option Text → Bool
matched none = false
matched (some rest) = true

-- `-----BEGIN[ -]+(?:OPENSSH[ -]+)?PRIVATE[ -]+KEY-----`, folded
unfoldable pub is_private_key_header : Text → Bool
unfolding word_and_blanks after
is_private_key_header text = matched (
    and_then (word_and_blanks "-----begin" text) (λ rest.
      and_then (word_and_blanks "private" (optional_part (word_and_blanks "openssh") rest))
        (after (codes "key-----"))))

-- `(?:words)\s*[:=]`, folded; no two of the words match at one place
unfoldable pub is_secret_assignment : Text → Bool
unfolding after skip_class
is_secret_assignment text = any assigned words
  where
    ends : Text → Bool
    ends [] = false
    ends (c ∷ rest) = c == b':' || c == b'='

    assigned : String → Bool
    assigned word = elim (after (codes word) text) [
      | none ↦ false
      | some rest ↦ ends (skip_class is_space rest)
    ]

    words : List String
    words =
        "password" ∷ "passphrase" ∷ "secret" ∷ "privatekey" ∷ "private_key" ∷ "private key"
        ∷ "private-key" ∷ "token" ∷ "credential" ∷ []

-- `_SECRET_VALUE.search(value)`
unfoldable pub is_secret_value : Text → Bool
unfolding search_text fold_text is_private_key_header is_secret_assignment
is_secret_value value =
    search_text (λ rest. is_private_key_header rest || is_secret_assignment rest) (fold_text value)

-- `_ARGUMENT_KEY.fullmatch(key)`
unfoldable pub is_argument_key : Text → Bool
unfolding fold_text
is_argument_key key = any (λ word. fold_text key == codes word) words
  where
    words : List String
    words =
        "arg" ∷ "args" ∷ "argument" ∷ "arguments" ∷ "argv" ∷ "command" ∷ "command_line"
        ∷ "command-line" ∷ "command_arg" ∷ "command-arg" ∷ "command_args" ∷ "command-args" ∷ []

-- `_PATH_FIELD_NAMES`
abbrev pub path_field_names : List String
path_field_names = "destination" ∷ "device" ∷ "path_component" ∷ "remote_home" ∷ []

-- `_PATH_KEY.search(key)`, folded: `$` matches before a line feed at the end as well.
unfoldable pub has_path_word : Text → Bool
unfolding search_text
has_path_word key = is_path_word key || search_text after_underscore key
  where
    words : List String
    words =
        "path" ∷ "paths" ∷ "source" ∷ "sources" ∷ "target" ∷ "targets" ∷ "root" ∷ "roots"
        ∷ "directory" ∷ "directories" ∷ "dir" ∷ "dirs" ∷ "manifest" ∷ []

    is_path_word : Text → Bool
    is_path_word rest = any (λ word. rest == codes word || rest == codes word ++ 10 ∷ []) words

    after_underscore : Text → Bool
    after_underscore [] = false
    after_underscore (c ∷ rest) = c == b'_' && is_path_word rest

-- `_is_path_field`
unfoldable pub is_path_field : Text → Bool
unfolding has_path_word fold_text
is_path_field key =
    any (λ name. key == codes name) path_field_names || has_path_word (fold_text key)

-- `_SAFE_REASON_VALUES`
abbrev pub safe_reason_values : List String
safe_reason_values =
    "available" ∷ "done" ∷ "enforced" ∷ "flush or unmount failure"
    ∷ "Landlock and process hardening enforced" ∷ "Landlock available but not applied"
    ∷ "Landlock unavailable" ∷ "missing ABI" ∷ "mount failure" ∷ "operator supplied" ∷ "remote"
    ∷ "test" ∷ "test hardening enforced" ∷ "transport failure" ∷ "user request" ∷ []

-- `_SAFE_PAYLOAD_KEYS`
abbrev pub safe_payload_keys : List String
safe_payload_keys =
    "access_mode" ∷ "accepted" ∷ "allowed" ∷ "allowed_issuers" ∷ "allowed_kinds" ∷ "architecture"
    ∷ "backend_id" ∷ "bundle_digest" ∷ "cache_path" ∷ "capabilities" ∷ "canonical_root"
    ∷ "canonical_source" ∷ "chain_errors" ∷ "child" ∷ "client_nonce" ∷ "code" ∷ "config_path"
    ∷ "created_at" ∷ "daemon" ∷ "decision" ∷ "dependencies" ∷ "dependency_error" ∷ "destination"
    ∷ "device" ∷ "directory" ∷ "effective_export_hash" ∷ "effective_exports_digest" ∷ "ended_at"
    ∷ "enforced" ∷ "entries" ∷ "errno" ∷ "error" ∷ "error_code" ∷ "error_type" ∷ "event_time"
    ∷ "evidence" ∷ "expires_at" ∷ "export" ∷ "exports" ∷ "filesystem_type" ∷ "flags"
    ∷ "flush_warning" ∷ "forbidden_source_roots" ∷ "format_version" ∷ "grant_id" ∷ "group"
    ∷ "hardening" ∷ "host_id" ∷ "host_key_fingerprint" ∷ "id" ∷ "identity_file" ∷ "inode" ∷ "is_dir"
    ∷ "issued_at" ∷ "issuer_key_id" ∷ "key_kind" ∷ "kind" ∷ "landlock_abi" ∷ "landlock_available"
    ∷ "landlock_required_abi" ∷ "max_depth" ∷ "max_exports" ∷ "maximum_access" ∷ "max_ttl_seconds"
    ∷ "message" ∷ "method" ∷ "mode" ∷ "mount_id" ∷ "mount_path" ∷ "name" ∷ "network"
    ∷ "nested_mount_policy" ∷ "next_action" ∷ "nonce" ∷ "not_before" ∷ "number" ∷ "object_type"
    ∷ "ok" ∷ "operation" ∷ "optional_extensions" ∷ "os" ∷ "package_version" ∷ "path" ∷ "path_mode"
    ∷ "paths" ∷ "path_component" ∷ "peer_uid" ∷ "phase" ∷ "pid" ∷ "policy_hash" ∷ "port"
    ∷ "previous_event_id" ∷ "probe" ∷ "profile_id" ∷ "protocol_version" ∷ "provenance"
    ∷ "python_version" ∷ "reason" ∷ "recorded" ∷ "returncode" ∷ "recursive" ∷ "remote_count"
    ∷ "remote_home" ∷ "remote_state" ∷ "remote_user" ∷ "removed_names" ∷ "removed_path_entries"
    ∷ "request_id" ∷ "requested_features" ∷ "requested_source" ∷ "requested_workload" ∷ "required"
    ∷ "resolution" ∷ "result" ∷ "retryable" ∷ "revision" ∷ "revoked" ∷ "root" ∷ "roots"
    ∷ "runtime_manifest_digest" ∷ "runtime_target" ∷ "safe_message" ∷ "schema_version"
    ∷ "security_result" ∷ "sensitivity" ∷ "server_policy_hash" ∷ "session_id" ∷ "session_nonce"
    ∷ "source_identity" ∷ "source_path" ∷ "source_roots" ∷ "ssh_host_fingerprint"
    ∷ "ssh_host_key_fingerprint" ∷ "stable_error_code" ∷ "started_at" ∷ "start_new_session"
    ∷ "state" ∷ "state_version" ∷ "status" ∷ "subject_id" ∷ "subject_type" ∷ "supported" ∷ "syscall"
    ∷ "target" ∷ "target_platform" ∷ "timeout_seconds" ∷ "transport_capability" ∷ "transport_key_id"
    ∷ "type" ∷ "unsafe_reason" ∷ "updated_at" ∷ "version" ∷ "virtual_target" ∷ "workload_id" ∷ []

-- `key in _SAFE_PAYLOAD_KEYS`, and so for the reasons
abbrev pub in_strings : List String → Text → Bool
in_strings strings text = any (λ s. text == codes s) strings
