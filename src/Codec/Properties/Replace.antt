-- ===== src/Codec/Properties/Replace.antt =====
-- src/codec/properties.rs: what the accessors read behind `set_response_topic` and
-- `set_correlation_data`.
use mqtt_wasi.Prelude.{
  ◌≡◌, refl, true, false, inl, inr, Option, none, some, List, [], ◌∷◌, ◌++◌, ==_iff, Bool-cases,
}
use mqtt_wasi.Codec.Words.{Bytes}
use mqtt_wasi.Codec.Properties.{
  PropertyId, response_topic, correlation_data, property_id_code, same_id, PropertyValue, str,
  binary, Properties, Entry, find_value, or_else, retain_other, replace_single, set_response_topic,
  set_correlation_data, response_topic_of, correlation_data_of, get_string, get_binary,
}

same_id_refl : (id : PropertyId) → same_id id id ≡ true
unfolding same_id
same_id_refl id = (==_iff (property_id_code id) (property_id_code id)).1 refl

-- Identifiers that are the same are the same as a third, or not.
same_id_trans : (a b c : PropertyId) → same_id a b ≡ true → same_id a c ≡ same_id b c
unfolding same_id
same_id_trans a b c h = let e = (==_iff (property_id_code a) (property_id_code b)).0 h in rw e

or_else-none {ℓ} : {A : Type ℓ} (o : Option A) → or_else o none ≡ o
or_else-none none = refl
or_else-none (some a) = refl

module _ {ℓ} {A : Type ℓ} (pick : PropertyValue → Option A) (id : PropertyId) where
  find-same :
      (entries : List Entry) (value : PropertyValue)
      → find_value pick id (retain_other id entries ++ (id, value) ∷ []) ≡ pick value
  unfolding retain_other
  find-same [] value = rw (find_value, same_id_refl id) (or_else-none (pick value))
  find-same ((pid, v) ∷ entries) value = elim (Bool-cases (same_id pid id)) [
    | inl same ↦ rw same (find-same entries value)
    | inr other ↦ rw (other, find_value, other) (find-same entries value)
  ]

  find-other :
      (other : PropertyId) (entries : List Entry) (value : PropertyValue)
      → same_id other id ≡ false
      → find_value pick id (retain_other other entries ++ (other, value) ∷ [])
        ≡ find_value pick id entries
  unfolding retain_other
  find-other other [] value h = rw (find_value, h)
  find-other other ((pid, v) ∷ entries) value h = elim (Bool-cases (same_id pid other)) [
    | inl same ↦
        rw (same, find_value, same_id_trans pid other id same, h) (find-other other entries value h)
    | inr differs ↦ rw (differs, find_value, find-other other entries value h)
  ]

-- The response topic that was set is the one that is read, whatever was there before, and so is the
-- correlation data; each leaves what the other one reads.
pub set-read :
    (topic bytes : Bytes) (props : Properties)
    → (response_topic_of (set_response_topic topic props) ≡ some topic)
      × (correlation_data_of (set_correlation_data bytes props) ≡ some bytes)
      × (correlation_data_of (set_response_topic topic props) ≡ correlation_data_of props)
      × (response_topic_of (set_correlation_data bytes props) ≡ response_topic_of props)
unfolding response_topic_of correlation_data_of set_response_topic set_correlation_data
    replace_single get_string get_binary
set-read topic bytes props = (
  find-same _ response_topic props.entries (str topic),
  find-same _ correlation_data props.entries (binary bytes),
  find-other _ correlation_data response_topic props.entries (str topic) differ,
  find-other _ response_topic correlation_data props.entries (binary bytes) differ',
)
  where
    differ : same_id response_topic correlation_data ≡ false
    differ = unfold same_id property_id_code in refl

    differ' : same_id correlation_data response_topic ≡ false
    differ' = unfold same_id property_id_code in refl
