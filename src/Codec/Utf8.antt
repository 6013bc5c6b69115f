-- ===== src/Codec/Utf8.antt =====
-- Rust's `String` as its UTF-8 bytes, and the check of `String::from_utf8` as an automaton over
-- the well-formed byte sequences of the Unicode standard.
use mqtt_wasi.Prelude.{ℕ, zero, suc, ◌≡◌, Bool, true, false, ◌&&◌, [], ◌∷◌, leb, ltb, ◌==◌}
use mqtt_wasi.Prelude.{if◌then◌else◌, any}
use mqtt_wasi.Codec.Words.{Bytes}

-- Between characters; or with `n` more continuation bytes after the next, which lies from `lo` to
-- `hi`; or after a byte that fits nowhere.
pub data Utf8 : Type 0 where
  start : Utf8
  next : ℕ → ℕ → ℕ → Utf8
  bad : Utf8

abbrev within : ℕ → ℕ → ℕ → Bool
within lo hi b = leb lo b && leb b hi

-- the state after the first byte of a character
lead : ℕ → Utf8
lead b =
    if ltb b 0x80
    then start
    else if within 0xC2 0xDF b
    then next 0 0x80 0xBF
    else if b == 0xE0
    then next 1 0xA0 0xBF
    else if b == 0xED
    then next 1 0x80 0x9F
    else if within 0xE1 0xEF b
    then next 1 0x80 0xBF
    else if b == 0xF0
    then next 2 0x90 0xBF
    else if within 0xF1 0xF3 b
    then next 2 0x80 0xBF
    else if b == 0xF4
    then next 2 0x80 0x8F
    else bad

after : ℕ → Utf8
after zero = start
after (suc n) = next n 0x80 0xBF

step : Utf8 → ℕ → Utf8
unfolding lead after
step start b = lead b
step (next n lo hi) b = if within lo hi b then after n else bad
step bad b = bad

run : Utf8 → Bytes → Utf8
run s [] = s
run s (b ∷ bs) = run (step s b) bs

complete : Utf8 → Bool
complete start = true
complete _ = false

-- `String::from_utf8(bytes).is_ok()`
unfoldable pub is_utf8 : Bytes → Bool
unfolding step run complete
is_utf8 bs = complete (run start bs)

-- The bytes of a Rust string.
abbrev pub IsText : Bytes → Type 0
IsText s = is_utf8 s ≡ true

-- `bytes.contains(&0)`
abbrev pub has_null : Bytes → Bool
has_null = any (λ b. b == 0)
