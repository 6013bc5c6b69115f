-- ===== src/Codec/Words.antt =====
-- The machine integers of the codec: bytes, u16, u32 and usize as numbers, with the wrap-around of
-- Rust's casts and the big-endian byte order written out. Byte slices are lists of numbers.
use mqtt_wasi.Prelude.{
  ℕ, ◌+◌, ◌-◌, ◌/◌, ◌%◌, ◌<◌, List, [], ◌∷◌, ltb, if◌then◌else◌, Option, none, some, Bool, true,
  false, ◌&&◌, any, ◌==◌,
}

abbrev pub Bytes : Type 0
Bytes = List ℕ

abbrev pub IsByte : ℕ → Type 0
IsByte b = b < 256

abbrev pub IsU16 : ℕ → Type 0
IsU16 v = v < 65536

abbrev pub IsU32 : ℕ → Type 0
IsU32 v = v < 4294967296

abbrev pub u8_mod : ℕ
u8_mod = 256

abbrev pub u16_mod : ℕ
u16_mod = 65536

abbrev pub u32_mod : ℕ
u32_mod = 4294967296

-- usize is 64 bits wide.
abbrev pub usize_mod : ℕ
usize_mod = 18446744073709551616

-- `a.checked_add(b)` on usize
abbrev pub checked_add : ℕ → ℕ → Option ℕ
checked_add a b = if ltb (a + b) usize_mod then some (a + b) else none

-- `a.saturating_add(b)` on usize
abbrev pub saturating_add : ℕ → ℕ → ℕ
saturating_add a b = if ltb (a + b) usize_mod then a + b else usize_mod - 1

-- `v.to_be_bytes()` of a u16 and of a u32
abbrev pub u16_bytes : ℕ → Bytes
u16_bytes v = (v / 256) ∷ (v % 256) ∷ []

abbrev pub u32_bytes : ℕ → Bytes
u32_bytes v = (v / 16777216) ∷ (v / 65536 % 256) ∷ (v / 256 % 256) ∷ (v % 256) ∷ []

-- `matches!(code, a | b | ...)`
abbrev pub one_of : List ℕ → ℕ → Bool
one_of codes code = any (λ k. code == k) codes

-- `==` of two slices
unfoldable pub same_bytes : Bytes → Bytes → Bool
same_bytes [] [] = true
same_bytes (x ∷ xs) (y ∷ ys) = x == y && same_bytes xs ys
same_bytes _ _ = false
