-- ===== src/Codec/Properties/Checked.antt =====
-- src/codec/properties.rs: the decoder and its calls of `validate_property`.
use mqtt_wasi.Prelude.{
  ℕ, zero, suc, ◌≡◌, sym, ◌∙◌, inl, inr, Option, none, some, List, [], ◌∷◌, ◌++◌, ltb, ◌==◌,
  if◌then◌else◌, compare-cases, All,
}
use mqtt_wasi.Errors.{ok, err, malformed_packet, fail_if, bind-eq-ok}
use mqtt_wasi.Codec.Words.{checked_add}
use mqtt_wasi.Codec.Cursor.{Cursor, lift, read_variable_int, remaining}
use mqtt_wasi.Codec.Cursor.Yields.{
  Yields, Yields-bind, Yields-after, Yields-pure, Yields-lift, Yields-if,
}
use mqtt_wasi.Codec.Properties.{
  PropertyId, property_id_from_u8, PropertyContext, Properties, Entry, no_properties, push,
}
use mqtt_wasi.Codec.Properties.Validate.{validate_property, is_forbidden, register_property_id}
use mqtt_wasi.Codec.Properties.Decode.{
  decode_value, skip_property_value, check_end, decode_known, decode_entry, decode_entries, ok_or,
  decode_section, decode_inner, decode_for,
}
use mqtt_wasi.Codec.Properties.Safe.{entries_more, entries_there, entries_past}

abbrev pub AreChecked : List Entry → Type 0
AreChecked = All (λ entry. validate_property entry.0 entry.1 ≡ ok tt)

All_concat :
    (entries : List Entry) (entry : Entry)
    → AreChecked entries
    → validate_property entry.0 entry.1 ≡ ok tt
    → AreChecked (entries ++ entry ∷ [])
All_concat [] entry a e = (e, tt)
All_concat (x ∷ entries) entry (ax, a) e = (ax, All_concat entries entry a e)

abbrev Checked : Properties → Type 0
Checked props = AreChecked props.entries

module _ (end : ℕ) (props : Properties) (a : AreChecked props.entries) where
  known-AreChecked :
      (id : Option PropertyId) (raw : ℕ) → Yields Checked (decode_known end id raw props)
  unfolding decode_known
  known-AreChecked none raw =
      Yields-after Checked (skip_property_value raw) _
        λ _. Yields-after Checked (check_end end) _ λ _. Yields-pure Checked props a
  known-AreChecked (some id) raw = Yields-after Checked (decode_value id) _ λ value.
      Yields-after Checked (check_end end) _ λ _.
        Yields-bind Checked (λ _. validate_property id value ≡ ok tt) _ _
          (Yields-lift (λ _. validate_property id value ≡ ok tt) (validate_property id value)
            λ u valid. valid)
          λ _ valid.
            Yields-pure Checked (push id value props) (All_concat props.entries (id, value) a valid)

  entry-AreChecked :
      (context : Option PropertyContext) (seen : List ℕ)
      → Yields (λ (seen', props'). AreChecked props'.entries) (decode_entry context end seen props)
  unfolding decode_entry
  entry-AreChecked context seen =
      let P : List ℕ × Properties → Type 0 = λ state. AreChecked state.1.entries in
      Yields-after P read_variable_int _ λ raw.
        Yields-after P
          (lift
            (if ltb raw 256 then ok raw else err (malformed_packet "property id exceeds one byte")))
          _
          λ id.
            Yields-after P
              (lift (fail_if (id == 0x23) (malformed_packet "topic alias is not supported"))) _
              λ _.
                Yields-after P
                  (lift (
                    fail_if (is_forbidden context id)
                      (malformed_packet "property is not allowed in this packet")))
                  _
                  λ _. Yields-after P (lift (register_property_id seen id context)) _ λ seen'.
                    Yields-bind P Checked _ _ (known-AreChecked (property_id_from_u8 id) id)
                      λ props' checked. Yields-pure P (seen', props') checked

entries-AreChecked :
    (context : Option PropertyContext) (end fuel : ℕ) (seen : List ℕ) (props : Properties)
    (c : Cursor) {out : Properties} {c' : Cursor}
    → AreChecked props.entries
    → decode_entries context end fuel seen props c ≡ ok (out, c')
    → AreChecked out.entries
unfolding decode_entries
entries-AreChecked context end zero seen props c a h = cc
entries-AreChecked context end (suc fuel) seen props c {out} a h = elim (compare-cases c.pos end) [
  | inl lt ↦
      let h₁ = sym (entries_more context end fuel seen props c lt) ∙ h in
      let (got, h₂, h₃) = bind-eq-ok (decode_entry context end seen props c) _ h₁ in
      entries-AreChecked context end fuel got.0.0 got.0.1 got.1
        ((entry-AreChecked end props a context seen).at c got.0 got.1 h₂) h₃
  | inr (inl eq) ↦
      let h₁ = sym (entries_there context end fuel seen props c eq) ∙ h in
      let e : out ≡ props = cc (h₁) in rw e a
  | inr (inr gt) ↦ let h₁ = sym (entries_past context end fuel seen props c gt) ∙ h in cc (h₁)
]

section-AreChecked :
    (context : Option PropertyContext) (len : ℕ) → Yields Checked (decode_section context len)
unfolding decode_section
section-AreChecked context len = record {
  at = λ c out c' h.
      let (_, _, rest₁) = bind-eq-ok (fail_if (ltb (remaining c) len) _) _ h in
      let (end, _, rest₂) = bind-eq-ok (ok_or (checked_add c.pos len) _) _ rest₁ in
      entries-AreChecked context end (suc len) [] no_properties c tt rest₂;
}

-- Every property that `decode_for` gives has passed `validate_property`: its value is of its
-- identifier's type and within its range.
pub decode_for-AreChecked :
    (context : PropertyContext) → Yields (λ props. AreChecked props.entries) (decode_for context)
unfolding decode_for decode_inner
decode_for-AreChecked context = Yields-after Checked read_variable_int _ λ len.
    Yields-if Checked (len == 0) _ _ (Yields-pure Checked no_properties tt)
      (section-AreChecked (some context) len)
