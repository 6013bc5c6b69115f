-- ===== src/Codec/Topic/Wildcards.antt =====
-- src/codec/topic.rs: the check of a filter's levels, against a description of where wildcards may
-- stand that does not cut the filter into levels.
use mqtt_wasi.Prelude.{
  ℕ, ◌≡◌, ◌↔◌, refl, sym, ap, ◌∙◌, Bool, true, false, not, ◌&&◌, ◌||◌, inl, inr, List, [], ◌∷◌,
  ◌==◌, ==_iff, if◌then◌else◌, Bool-cases, is_empty,
}
use mqtt_wasi.Errors.{ok, fail_if, fail_if-eq-ok, bind-eq-ok}
use mqtt_wasi.Codec.Words.{Bytes}
use mqtt_wasi.Codec.Topic.{slash, has, is_just, split, validate_levels, validate_filter_levels}

-- A level ends here: at the end of the filter, or before a slash.
abbrev ends_level : Bytes → Bool
ends_level [] = true
ends_level (b ∷ bs) = b == slash

-- `#` only as the first byte of a level and the last of the filter, `+` only as a whole level.
-- `start` says that a level begins here.
unfoldable pub are_wildcards_placed : Bool → Bytes → Bool
are_wildcards_placed start [] = true
are_wildcards_placed start (b ∷ bs) =
    let rest = are_wildcards_placed (b == slash) bs in
    if b == b'#'
    then start && is_empty bs
    else if b == b'+'
    then (start && ends_level bs) && rest
    else rest

abbrev is_level : Bytes → List Bytes → Bool
is_level l ls =
    not (has b'#' l && (not (is_just b'#' l) || not (is_empty ls)))
    && not (has b'+' l && not (is_just b'+' l))

abbrev are_levels : List Bytes → Bool
are_levels [] = true
are_levels (l ∷ ls) = is_level l ls && are_levels ls

-- What follows a byte of a level: no wildcard up to its end.
abbrev are_behind : List Bytes → Bool
are_behind [] = true
are_behind (l ∷ ls) = (not (has b'#' l) && not (has b'+' l)) && are_levels ls

hash_lem :
    (l : Bytes) (ls : List Bytes) → are_levels ((b'#' ∷ l) ∷ ls) ≡ (is_empty l && is_empty ls)
hash_lem [] [] = refl
hash_lem [] (m ∷ ls) = refl
hash_lem (b ∷ l) ls = refl

plus_lem :
    (l : Bytes) (ls : List Bytes)
    → are_levels ((b'+' ∷ l) ∷ ls) ≡ (is_empty l && are_behind (l ∷ ls))
plus_lem [] ls = refl
plus_lem (b ∷ l) ls = elim (Bool-cases (has b'#' (b ∷ l))) [ inl h ↦ rw h | inr h ↦ rw h ]

plain_lem :
    (b : ℕ) (l : Bytes) (ls : List Bytes)
    → (b == b'#') ≡ false
    → (b == b'+') ≡ false
    → are_levels ((b ∷ l) ∷ ls) ≡ are_behind (l ∷ ls)
plain_lem b l ls e f = elim (Bool-cases (has b'#' l)) [
  | inl h ↦ rw (e, f, h)
  | inr h ↦ elim (Bool-cases (has b'+' l)) [ inl p ↦ rw (e, f, h, p) | inr p ↦ rw (e, f, h, p) ]
]

behind_lem :
    (b : ℕ) (l : Bytes) (ls : List Bytes)
    → (b == b'#') ≡ false
    → (b == b'+') ≡ false
    → are_behind ((b ∷ l) ∷ ls) ≡ are_behind (l ∷ ls)
behind_lem b l ls e f = rw (e, f)

-- The first level of `bs`, and the others.
record SplitView (bs : Bytes) : Type 0 where
  level : Bytes
  levels : List Bytes
  cut : split bs ≡ level ∷ levels
  whole : is_empty bs ≡ (is_empty level && is_empty levels)
  ending : ends_level bs ≡ is_empty level

split-SplitView : (bs : Bytes) → SplitView bs
unfolding split
split-SplitView [] = record { level = []; levels = []; cut = refl; whole = refl; ending = refl }
split-SplitView (b ∷ bs) =
    let v = split-SplitView bs in
    elim (Bool-cases (b == slash)) [
      | inl at_slash ↦ record {
        level = [];
        levels = v.level ∷ v.levels;
        cut = rw (at_slash, v.cut);
        whole = refl;
        ending = at_slash;
      }
      | inr within ↦ record {
        level = b ∷ v.level;
        levels = v.levels;
        cut = rw (within, v.cut);
        whole = refl;
        ending = within;
      }
    ]

-- Behind a byte that is no slash, the first level is longer.
split_more :
    (b : ℕ) (bs : Bytes) (v : SplitView bs)
    → (b == slash) ≡ false
    → split (b ∷ bs) ≡ (b ∷ v.level) ∷ v.levels
unfolding split
split_more b bs v h = rw (h, v.cut)

-- The description and the check of the levels agree, at the start of a level and within one.
record Agree (bs : Bytes) : Type 0 where
  at_start : are_wildcards_placed true bs ≡ are_levels (split bs)
  behind : are_wildcards_placed false bs ≡ are_behind (split bs)

Agree-slash : (bs : Bytes) → Agree bs → Agree (slash ∷ bs)
unfolding are_wildcards_placed split
Agree-slash bs a = record { at_start = a.at_start; behind = a.at_start }

Agree-hash : (bs : Bytes) → SplitView bs → Agree (b'#' ∷ bs)
unfolding are_wildcards_placed
Agree-hash bs v =
    let cut = split_more b'#' bs v refl in
    record {
      at_start = v.whole ∙ sym (hash_lem v.level v.levels) ∙ sym (ap are_levels cut);
      behind = sym (ap are_behind cut);
    }

no_plus_behind : (l : Bytes) (ls : List Bytes) → are_behind ((b'+' ∷ l) ∷ ls) ≡ false
no_plus_behind l ls = elim (Bool-cases (has b'#' l)) [ inl h ↦ rw h | inr h ↦ rw h ]

Agree-plus : (bs : Bytes) → SplitView bs → Agree bs → Agree (b'+' ∷ bs)
unfolding are_wildcards_placed
Agree-plus bs v a =
    let cut = split_more b'+' bs v refl in
    record {
      at_start = rw (cut, v.ending, a.behind, v.cut) (sym (plus_lem v.level v.levels));
      behind = sym (ap are_behind cut ∙ no_plus_behind v.level v.levels);
    }

Agree-plain :
    (b : ℕ) (bs : Bytes)
    → (b == slash) ≡ false
    → (b == b'#') ≡ false
    → (b == b'+') ≡ false
    → SplitView bs
    → Agree bs
    → Agree (b ∷ bs)
unfolding are_wildcards_placed
Agree-plain b bs s e f v a =
    let cut = split_more b bs v s in
    record {
      at_start =
          rw (e, f, s, cut)
            (a.behind ∙ ap are_behind v.cut ∙ sym (plain_lem b v.level v.levels e f));
      behind =
          rw (e, f, s, cut)
            (a.behind ∙ ap are_behind v.cut ∙ sym (behind_lem b v.level v.levels e f));
    }

agree : (bs : Bytes) → Agree bs
agree [] = unfold are_wildcards_placed split in record { at_start = refl; behind = refl }
agree (b ∷ bs) =
    let v = split-SplitView bs in
    let a = agree bs in
    elim (Bool-cases (b == slash)) [
      | inl s ↦ let e = (==_iff b slash).0 s in rw e (Agree-slash bs a)
      | inr s ↦ elim (Bool-cases (b == b'#')) [
        | inl h ↦ let e = (==_iff b b'#').0 h in rw e (Agree-hash bs v)
        | inr h ↦ elim (Bool-cases (b == b'+')) [
          | inl p ↦ let e = (==_iff b b'+').0 p in rw e (Agree-plus bs v a)
          | inr p ↦ Agree-plain b bs s h p v a
        ]
      ]
    ]

levels-ok : (ls : List Bytes) → are_levels ls ≡ true → validate_levels ls ≡ ok tt
unfolding validate_levels
levels-ok [] h = refl
levels-ok (l ∷ ls) h =
    elim (Bool-cases (has b'#' l && (not (is_just b'#' l) || not (is_empty ls)))) [
      | inl bad ↦ let h' = rw bad at h in cc
      | inr good ↦ elim (Bool-cases (has b'+' l && not (is_just b'+' l))) [
        | inl bad ↦ let h' = rw (good, bad) at h in cc
        | inr fine ↦ let h' = rw (good, fine) at h in rw (good, fine) (levels-ok ls h')
      ]
    ]

ok-levels : (ls : List Bytes) → validate_levels ls ≡ ok tt → are_levels ls ≡ true
unfolding validate_levels
ok-levels [] h = refl
ok-levels (l ∷ ls) h =
    let (_, h₁, rest₁) =
      bind-eq-ok (fail_if (has b'#' l && (not (is_just b'#' l) || not (is_empty ls))) _) _ h in
    let (_, h₂, rest₂) = bind-eq-ok (fail_if (has b'+' l && not (is_just b'+' l)) _) _ rest₁ in
    rw (fail_if-eq-ok _ _ h₁, fail_if-eq-ok _ _ h₂) (ok-levels ls rest₂)

-- `validate_filter_levels` accepts exactly the filters in which every `#` is alone in its level and
-- the last byte, and every `+` is alone in its level.
pub validate_filter_levels_iff :
    (filter : Bytes)
    → (validate_filter_levels filter ≡ ok tt) ↔ (are_wildcards_placed true filter ≡ true)
unfolding validate_filter_levels
validate_filter_levels_iff filter = (
  λ h. (agree filter).at_start ∙ ok-levels (split filter) h,
  λ h. levels-ok (split filter) (sym (agree filter).at_start ∙ h),
)
