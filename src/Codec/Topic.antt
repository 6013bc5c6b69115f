-- ===== src/Codec/Topic.antt =====
-- src/codec/topic.rs: the shape of topic names and topic filters. `/`, `#`, `+` and `$share/` are
-- ASCII, so a search for them in a string is a search in its bytes.
pub mod Wildcards
use mqtt_wasi.Prelude.{
  ℕ, Bool, true, false, not, ◌&&◌, ◌||◌, Option, none, some, List, [], ◌∷◌, ◌==◌, if◌then◌else◌,
  any, is_empty,
}
use mqtt_wasi.Errors.{Result, ok, err, ◌>>◌, malformed_packet, fail_if}
use mqtt_wasi.Codec.Words.{Bytes}

abbrev pub slash : ℕ
slash = b'/'

abbrev pub is_wildcard : ℕ → Bool
is_wildcard b = b == b'#' || b == b'+'

-- `s.contains(['#', '+'])`
abbrev pub has_wildcard : Bytes → Bool
has_wildcard = any is_wildcard

abbrev pub has : ℕ → Bytes → Bool
has a = any (λ b. b == a)

-- `level == "#"` and `level == "+"`
abbrev pub is_just : ℕ → Bytes → Bool
is_just a [] = false
is_just a (b ∷ bs) = b == a && is_empty bs

unfoldable pub validate_topic_name : Bytes → Result (Unit {0})
validate_topic_name topic = do
  fail_if (is_empty topic) (malformed_packet "topic name is empty")
  fail_if (has_wildcard topic) (malformed_packet "topic name contains a wildcard")

-- `s.strip_prefix(prefix)`
strip_prefix : Bytes → Bytes → Option Bytes
strip_prefix [] s = some s
strip_prefix (p ∷ ps) [] = none
strip_prefix (p ∷ ps) (b ∷ bs) = let rest = strip_prefix ps bs in if p == b then rest else none

-- A first level that is longer by `b`.
abbrev pub grow : ℕ → List Bytes → List Bytes
grow b [] = (b ∷ []) ∷ []
grow b (level ∷ levels) = (b ∷ level) ∷ levels

-- `s.split('/')`
unfoldable pub split : Bytes → List Bytes
split [] = [] ∷ []
split (b ∷ bs) = let rest = split bs in if b == slash then [] ∷ rest else grow b rest

abbrev with_head : ℕ → Option (Bytes × Bytes) → Option (Bytes × Bytes)
with_head b none = none
with_head b (some (front, back)) = some (b ∷ front, back)

-- `s.split_once('/')`
split_once : Bytes → Option (Bytes × Bytes)
split_once [] = none
split_once (b ∷ bs) =
    let rest = split_once bs in if b == slash then some ([], bs) else with_head b rest

-- The loop over the levels; `levels.peek().is_some()` is that there are more.
unfoldable pub validate_levels : List Bytes → Result (Unit {0})
validate_levels [] = ok tt
validate_levels (level ∷ levels) = do
  fail_if (has b'#' level && (not (is_just b'#' level) || not (is_empty levels)))
      (malformed_packet "multi-level wildcard must occupy the final topic level")
  fail_if (has b'+' level && not (is_just b'+' level))
      (malformed_packet "single-level wildcard must occupy an entire topic level")
  validate_levels levels

unfoldable pub validate_filter_levels : Bytes → Result (Unit {0})
unfolding split validate_levels
validate_filter_levels filter = validate_levels (split filter)

abbrev pub share_prefix : Bytes
share_prefix = b'$' ∷ b's' ∷ b'h' ∷ b'a' ∷ b'r' ∷ b'e' ∷ b'/' ∷ []

-- what follows `$share/`, split at its first `/`
validate_shared : Option (Bytes × Bytes) → Result (Unit {0})
validate_shared none = err (malformed_packet "shared subscription is missing its topic filter")
validate_shared (some (share_name, inner_filter)) = do
  fail_if (is_empty share_name || has_wildcard share_name)
      (malformed_packet "shared subscription has an invalid share name")
  fail_if (is_empty inner_filter)
      (malformed_packet "shared subscription is missing its topic filter")
  validate_filter_levels inner_filter

validate_unless_shared : Bytes → Option Bytes → Result (Unit {0})
validate_unless_shared filter none = validate_filter_levels filter
validate_unless_shared filter (some shared) = validate_shared (split_once shared)

unfoldable pub validate_topic_filter : Bytes → Result (Unit {0})
unfolding strip_prefix split_once validate_shared validate_unless_shared
validate_topic_filter filter = do
  fail_if (is_empty filter) (malformed_packet "topic filter is empty")
  validate_unless_shared filter (strip_prefix share_prefix filter)

-- `filter.starts_with("$share/")`
unfoldable pub is_shared : Bytes → Bool
unfolding strip_prefix
is_shared filter = elim (strip_prefix share_prefix filter) [ none ↦ false | some rest ↦ true ]
