-- ===== src/Codec/Properties/Safe.antt =====
-- src/codec/properties.rs: property sections read from any input.
use mqtt_wasi.Prelude.{
  ℕ, zero, suc, ◌+◌, ◌-◌, ◌<◌, ◌≡◌, Bool, false, not, inl, inr, Option, none, some, List, [], arith,
  ltb, lt→ltb, le→ltb, ==_iff, compare-cases, ◌==◌, Bool-cases, String,
}
use mqtt_wasi.Errors
use mqtt_wasi.Errors.{
  Error, Result, ok, err, malformed_packet, out_of_fuel, fail_if, Ends, Ends-bind, Ends-ok, Ends-if,
  Ends-fail_if, Ends-malformed,
}
use mqtt_wasi.Codec.Words.{Bytes, checked_add, usize_mod}
use mqtt_wasi.Codec.Topic.{validate_topic_name}
use mqtt_wasi.Codec.Cursor
use mqtt_wasi.Codec.Cursor.{
  Cursor, Read, pure, lift, gets, remaining, read_u8, read_u16, read_u32, read_string, read_binary,
  read_variable_int,
}
use mqtt_wasi.Codec.Cursor.Safe.{
  IsWithin, Fine, Safe, Safe-bind, Safe-pure, Safe-gets, Safe-lift, Safe-if, Safe-weaken, Safe-fail,
  Safe-check, Safe-u8, Safe-u16, Safe-u32, Safe-string, Safe-binary, Safe-variable_int, Fine-trans,
  Fine-weaken, Moves-IsWithin, here,
}
use mqtt_wasi.Codec.Properties.{
  PropertyId, PropertyValue, PropertyContext, Properties, property_id_from_u8, no_properties,
}
use mqtt_wasi.Codec.Properties.Validate.{
  validate_property, has_valid_type, check_value, register_property_id, is_forbidden,
}
use mqtt_wasi.Codec.Properties.Decode.{
  decode_value, skip, skip_property_value, check_end, decode_known, decode_entry, decode_entries,
  decode_section, decode_inner, decode_for, skip_properties,
}

-- A read that is followed by no more than the wrapping of its value.
Safe-map :
    {A B : Type 0} (k : ℕ) (read : Read A) (f : A → B)
    → Safe k read
    → Safe 0 (Cursor.◌>>=◌ read λ a. pure (f a))
Safe-map k read f s =
    Safe-weaken (k + 0) 0 _ (omega arith) (Safe-bind k 0 read _ s λ a. Safe-pure (f a))

Safe-value : (id : PropertyId) → Safe 0 (decode_value id)
unfolding decode_value
Safe-value PropertyId.response_topic = Safe-map 2 read_string _ Safe-string
Safe-value PropertyId.assigned_client_identifier = Safe-map 2 read_string _ Safe-string
Safe-value PropertyId.reason_string = Safe-map 2 read_string _ Safe-string
Safe-value PropertyId.correlation_data = Safe-map 2 read_binary _ Safe-binary
Safe-value PropertyId.session_expiry_interval = Safe-map 4 read_u32 _ Safe-u32
Safe-value PropertyId.maximum_packet_size = Safe-map 4 read_u32 _ Safe-u32
Safe-value PropertyId.server_keep_alive = Safe-map 2 read_u16 _ Safe-u16
Safe-value PropertyId.receive_maximum = Safe-map 2 read_u16 _ Safe-u16
Safe-value PropertyId.topic_alias_maximum = Safe-map 2 read_u16 _ Safe-u16
Safe-value PropertyId.maximum_qos = Safe-map 1 read_u8 _ Safe-u8
Safe-value PropertyId.retain_available = Safe-map 1 read_u8 _ Safe-u8
Safe-value PropertyId.wildcard_subscription_available = Safe-map 1 read_u8 _ Safe-u8
Safe-value PropertyId.shared_subscription_available = Safe-map 1 read_u8 _ Safe-u8
Safe-value PropertyId.user_property =
    Safe-weaken 2 0 _ (omega arith)
      (Safe-bind 2 0 read_string _ Safe-string λ k. Safe-map 2 read_string _ Safe-string)

Safe-skip : {A : Type 0} (k : ℕ) (read : Read A) → Safe k read → Safe 0 (skip read)
Safe-skip k read s = Safe-map k read (λ _. tt) s

-- A read whose value must pass a check.
Safe-checked :
    {A : Type 0} (k : ℕ) (read : Read A) (test : A → Bool) (why : String)
    → Safe k read
    → Safe 0 (Cursor.◌>>=◌ read λ a. lift (fail_if (test a) (malformed_packet why)))
Safe-checked k read test why s =
    Safe-weaken (k + 0) 0 _ (omega arith) (Safe-bind k 0 read _ s λ a. Safe-check (test a) why)

Safe-skip_value : (id : ℕ) → Safe 0 (skip_property_value id)
unfolding skip_property_value
Safe-skip_value id = Safe-if 0 (id == 0x01) _ _ (Safe-checked 1 read_u8 (ltb 1) _ Safe-u8) (
    Safe-if 0 (id == 0x29) _ _ (Safe-checked 1 read_u8 (ltb 1) _ Safe-u8) (
      Safe-if 0 _ _ _ (Safe-skip 1 read_u8 Safe-u8) (
        Safe-if 0 _ _ _ (Safe-skip 2 read_u16 Safe-u16) (
          Safe-if 0 _ _ _ (Safe-skip 4 read_u32 Safe-u32) (
            Safe-if 0 (id == 0x0B) _ _
              (Safe-checked 1 read_variable_int (λ v. v == 0) _ Safe-variable_int)
              (Safe-if 0 _ _ _ (Safe-skip 2 read_string Safe-string) (
                Safe-if 0 _ _ _ (Safe-skip 2 read_binary Safe-binary) (
                  Safe-if 0 (id == 0x26) _ _
                    (Safe-bind 0 0 _ _ (Safe-skip 2 read_string Safe-string)
                      λ _. Safe-skip 2 read_string Safe-string)
                    (Safe-fail _)))))))))

topic_name-Ends : (topic : Bytes) → Ends (validate_topic_name topic)
unfolding validate_topic_name
topic_name-Ends topic = record { ends = λ e. ground arith }

check_value-Ends : (id : PropertyId) (value : PropertyValue) → Ends (check_value id value)
unfolding check_value
check_value-Ends PropertyId.response_topic (PropertyValue.str s) = topic_name-Ends s
check_value-Ends PropertyId.assigned_client_identifier (PropertyValue.str s) = Ends-fail_if _ _
check_value-Ends PropertyId.receive_maximum (PropertyValue.u16 v) = Ends-fail_if _ _
check_value-Ends PropertyId.maximum_packet_size (PropertyValue.u32 v) = Ends-fail_if _ _
check_value-Ends PropertyId.maximum_qos (PropertyValue.byte b) = Ends-fail_if _ _
check_value-Ends PropertyId.retain_available (PropertyValue.byte b) = Ends-fail_if _ _
check_value-Ends PropertyId.wildcard_subscription_available (PropertyValue.byte b) =
    Ends-fail_if _ _
check_value-Ends PropertyId.shared_subscription_available (PropertyValue.byte b) = Ends-fail_if _ _
check_value-Ends _ _ = Ends-ok tt

validate_property-Ends :
    (id : PropertyId) (value : PropertyValue) → Ends (validate_property id value)
unfolding validate_property
validate_property-Ends id value =
    Ends-bind (fail_if (not (has_valid_type id value)) _) _ (Ends-fail_if _ _)
      λ _. check_value-Ends id value

Safe-check_end : (end : ℕ) → Safe 0 (check_end end)
unfolding check_end
Safe-check_end end = record {
  at = λ c h. elim (Bool-cases (ltb end c.pos)) [
    | inl past ↦ rw past (λ e. cc)
    | inr within ↦ rw within ((Safe-pure tt).at c h)
  ];
}

Safe-known :
    (end : ℕ) (id : Option PropertyId) (raw : ℕ) (props : Properties)
    → Safe 0 (decode_known end id raw props)
unfolding decode_known
Safe-known end none raw props =
    Safe-bind 0 0 _ _ (Safe-skip_value raw)
      λ _. Safe-bind 0 0 _ _ (Safe-check_end end) λ _. Safe-pure props
Safe-known end (some id) raw props = Safe-bind 0 0 _ _ (Safe-value id) λ value.
    Safe-bind 0 0 _ _ (Safe-check_end end)
      λ _. Safe-bind 0 0 _ _ (Safe-lift _ (validate_property-Ends id value)) λ _. Safe-pure _

register-Ends :
    (seen : List ℕ) (id : ℕ) (context : Option PropertyContext)
    → Ends (register_property_id seen id context)
unfolding register_property_id
register-Ends seen id context = record { ends = λ e. ground arith }

Safe-entry :
    (context : Option PropertyContext) (end : ℕ) (seen : List ℕ) (props : Properties)
    → Safe 1 (decode_entry context end seen props)
unfolding decode_entry
Safe-entry context end seen props = Safe-bind 1 0 read_variable_int _ Safe-variable_int λ raw.
    Safe-bind 0 0 _ _ (Safe-lift _ (Ends-if (ltb raw 256) _ _ (Ends-ok raw) (Ends-malformed _ _)))
      λ id. Safe-bind 0 0 _ _ (Safe-check (id == 0x23) _) λ _.
        Safe-bind 0 0 _ _ (Safe-check (is_forbidden context id) _) λ _.
          Safe-bind 0 0 _ _ (Safe-lift _ (register-Ends seen id context)) λ seen'.
            Safe-bind 0 0 _ _ (Safe-known end (property_id_from_u8 id) id props)
              λ props'. Safe-pure _

module _ (context : Option PropertyContext) (end : ℕ) where
  -- The rounds of the loop.
  pub entries_more :
      (fuel : ℕ) (seen : List ℕ) (props : Properties) (c : Cursor)
      → c.pos < end
      → decode_entries context end (suc fuel) seen props c
        ≡ Errors.◌>>=◌
            (decode_entry context end seen props c)
            (λ (state, c'). decode_entries context end fuel state.0 state.1 c')
  unfolding decode_entries
  entries_more fuel seen props c h = rw (lt→ltb _ _ h, decode_entries)

  pub entries_there :
      (fuel : ℕ) (seen : List ℕ) (props : Properties) (c : Cursor)
      → c.pos ≡ end
      → decode_entries context end (suc fuel) seen props c ≡ ok (props, c)
  unfolding decode_entries
  entries_there fuel seen props c h =
      rw (le→ltb c.pos end (omega arith), (==_iff c.pos end).1 h, decode_entries)

  pub entries_past :
      (fuel : ℕ) (seen : List ℕ) (props : Properties) (c : Cursor)
      → end < c.pos
      → decode_entries context end (suc fuel) seen props c
        ≡ err (malformed_packet "property length mismatch")
  unfolding decode_entries
  entries_past fuel seen props c h =
      let e : (c.pos == end) ≡ false = ground arith in
      rw (le→ltb c.pos end (omega arith), e, decode_entries)

  rest-Fine :
      (fuel : ℕ) (c : Cursor) (r : Result ((List ℕ × Properties) × Cursor))
      → Fine 1 c r
      → ((seen : List ℕ) (props : Properties) (c' : Cursor)
          → IsWithin c'
          → c.pos < c'.pos
          → Fine 0 c' (decode_entries context end fuel seen props c'))
      → Fine 0 c (Errors.◌>>=◌ r λ (state, c'). decode_entries context end fuel state.0 state.1 c')
  rest-Fine fuel c (ok (state, c')) m ih =
      Fine-weaken 1 0 c _ (omega arith)
        (Fine-trans 1 0 c c' _ m (ih state.0 state.1 c' (Moves-IsWithin m) (omega arith)))
  rest-Fine fuel c (err e) n ih = n

  -- The loop ends where the declared length does, before its fuel does.
  entries-Fine :
      (fuel : ℕ) (seen : List ℕ) (props : Properties) (c : Cursor)
      → IsWithin c
      → end - c.pos < fuel
      → Fine 0 c (decode_entries context end fuel seen props c)
  entries-Fine zero seen props c h f = absurd (omega arith)
  entries-Fine (suc fuel) seen props c h f = elim (compare-cases c.pos end) [
    | inl lt ↦ rw (entries_more fuel seen props c lt) (
        rest-Fine fuel c _ ((Safe-entry context end seen props).at c h)
          λ seen' props' c' h' moved. entries-Fine fuel seen' props' c' h' (omega arith))
    | inr (inl eq) ↦ rw (entries_there fuel seen props c eq) (here c h)
    | inr (inr gt) ↦ rw (entries_past fuel seen props c gt) (λ e. cc)
  ]

checked_add-fits : (a b : ℕ) → a + b < usize_mod → checked_add a b ≡ some (a + b)
checked_add-fits a b h = rw (lt→ltb _ _ h)

Safe-section : (context : Option PropertyContext) (len : ℕ) → Safe 0 (decode_section context len)
unfolding decode_section
Safe-section context len = record {
  at = λ c h. elim (Bool-cases (ltb (remaining c) len)) [
    | inl short ↦ rw short (λ e. cc)
    | inr long ↦ elim (Bool-cases (ltb (c.pos + len) usize_mod)) [
      | inl fits ↦
          rw (long, fits)
            (entries-Fine context (c.pos + len) (suc len) [] no_properties c h (omega arith))
      | inr wraps ↦ rw (long, wraps) (λ e. cc)
    ]
  ];
}

Safe-inner : (context : Option PropertyContext) → Safe 1 (decode_inner context)
unfolding decode_inner
Safe-inner context =
    Safe-bind 1 0 read_variable_int _ Safe-variable_int
      λ len. Safe-if 0 (len == 0) _ _ (Safe-pure no_properties) (Safe-section context len)

-- From every position within a slice, the properties of any packet are read or refused: a read
-- moves the cursor over one byte at least and leaves it within the same slice, and a refusal is an
-- error of the source, since the loop does not run out of fuel.
pub Safe-decode_for : (context : PropertyContext) → Safe 1 (decode_for context)
unfolding decode_for
Safe-decode_for context = Safe-inner (some context)

pub Safe-skip_properties : (context : PropertyContext) → Safe 0 (skip_properties context)
unfolding skip_properties
Safe-skip_properties context = Safe-bind 0 0 (gets remaining) _ (Safe-gets remaining) λ left.
    Safe-if 0 (ltb 0 left) _ _ (Safe-map 1 _ (λ _. tt) (Safe-decode_for context)) (Safe-pure tt)
