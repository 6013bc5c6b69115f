-- ===== src/Prelude/Bits.antt =====
-- Masks as arithmetic: tables over one byte, and `& 0x7F` on every number.
use Prim.Native.Nat.{ℕ, zero, suc, ◌+◌, ◌*◌, ◌/◌, ◌%◌, ◌≤◌, ◌<◌, min, bit_and, bit_or}
use Prim.Native.Nat.{digits, bit_and-bitwise}
use mathlib.Core.Path.{◌≡◌, refl, sym, ap, ◌∙◌}
use mathlib.Core.Bool.{Bool, true, ◌&&◌}
use native.Mathlib.Omega.{arith}
use mqtt_wasi.Prelude.Tests.{◌==◌}
use native.Mathlib.Nat.{div-add-mod, mod-lt, mod-eq_of_lt, add-mul-mod_self_left}

-- Two functions agree at every number below the bound.
module _ (f g : ℕ → ℕ) where
  abbrev pub agree_below : ℕ → Bool
  agree_below zero = true
  agree_below (suc n) = f n == g n && agree_below n

  pub agree_below→eq : (n : ℕ) → agree_below n ≡ true → (i : ℕ) → i < n → f i ≡ g i
  agree_below→eq zero e i h = absurd (omega arith)
  agree_below→eq (suc n) e i h = ground (arith, agree_below→eq n (ground arith) i)

pub bit_and_byte_7f : (b : ℕ) → b < 256 → bit_and b 0x7F ≡ b % 128
bit_and_byte_7f = agree_below→eq _ _ 256 refl

pub bit_and_80 : (b : ℕ) → b < 256 → bit_and b 0x80 ≡ b / 128 * 128
bit_and_80 = agree_below→eq _ _ 256 refl

pub bit_and_0f : (b : ℕ) → b < 256 → bit_and b 0x0F ≡ b % 16
bit_and_0f = agree_below→eq _ _ 256 refl

pub bit_and_fe : (b : ℕ) → b < 256 → bit_and b 0xFE ≡ b / 2 * 2
bit_and_fe = agree_below→eq _ _ 256 refl

pub bit_and_01 : (b : ℕ) → b < 256 → bit_and b 0x01 ≡ b % 2
bit_and_01 = agree_below→eq _ _ 256 refl

pub bit_and_03 : (b : ℕ) → b < 256 → bit_and b 0x03 ≡ b % 4
bit_and_03 = agree_below→eq _ _ 256 refl

pub bit_and_08 : (b : ℕ) → b < 256 → bit_and b 0x08 ≡ b / 8 % 2 * 8
bit_and_08 = agree_below→eq _ _ 256 refl

pub bit_or_80 : (b : ℕ) → b < 128 → bit_or b 0x80 ≡ b + 128
bit_or_80 = agree_below→eq _ _ 128 refl

nibbles_or : (b : ℕ) → b < 256 → bit_or (b / 16 * 16) (b % 16) ≡ b
nibbles_or = agree_below→eq _ _ 256 refl

-- Two halves of a byte.
pub bit_or_nibbles : (hi lo : ℕ) → hi < 16 → lo < 16 → bit_or (hi * 16) lo ≡ hi * 16 + lo
bit_or_nibbles hi lo h l =
    let e : (hi * 16 + lo) / 16 * 16 ≡ hi * 16 = omega arith in
    let f : (hi * 16 + lo) % 16 ≡ lo = omega arith in
    rw (e, f) at (nibbles_or (hi * 16 + lo) (omega arith))

-- One digit of the mask 2 * m + 1 above those of the mask m, where the count of digits to go
-- bounds the number.
abbrev masked : ℕ → ℕ → ℕ → ℕ
masked m n a = digits (λ b. zero) min n a m

-- The remainder by an even number, from that of the half.
mod_double : (m a : ℕ) → a % (2 * m + 2) ≡ a / 2 % (m + 1) * 2 + a % 2
mod_double m a =
    ap (λ k. k % (2 * m + 2)) split
    ∙ add-mul-mod_self_left (low * 2 + a % 2) (2 * m + 2) (a / 2 / (m + 1))
    ∙ mod-eq_of_lt (omega (arith, mod-lt (a / 2) {m = m + 1} (omega arith)))
  where
    low : ℕ
    low = a / 2 % (m + 1)

    split : a ≡ low * 2 + a % 2 + (2 * m + 2) * (a / 2 / (m + 1))
    split = omega (arith, div-add-mod (a / 2) (m + 1))

masked_0 : (n a : ℕ) → a ≤ n → masked 0 n a ≡ a % 1
masked_0 zero a h = omega arith
masked_0 (suc n) zero h = refl
masked_0 (suc n) (suc a) h = omega (arith, masked_0 n (suc a / 2) (omega arith))

-- `c` is 2 * m + 1.
masked_double :
    (m c : ℕ)
    → c / 2 ≡ m
    → c % 2 ≡ 1
    → ((n a : ℕ) → a ≤ n → masked m n a ≡ a % (m + 1))
    → (n a : ℕ) → a ≤ n
    → masked c n a ≡ a % (2 * m + 2)
masked_double m c half odd low zero a h =
    let e : a ≡ 0 = omega arith in rw e (sym (mod-eq_of_lt (omega arith)))
masked_double m c half odd low (suc n) zero h = sym (mod-eq_of_lt (omega arith))
masked_double m c half odd low (suc n) (suc a) h =
    rw (half, odd) (omega (arith, low n (suc a / 2) (omega arith), mod_double m (suc a)))

masked_7f : (n a : ℕ) → a ≤ n → masked 0x7F n a ≡ a % 128
masked_7f =
    let up = masked_double in
    up 63 127 refl refl (
      up 31 63 refl refl (
        up 15 31 refl refl
          (up 7 15 refl refl (up 3 7 refl refl (up 1 3 refl refl (up 0 1 refl refl masked_0))))))

pub bit_and_7f : (a : ℕ) → bit_and a 0x7F ≡ a % 128
bit_and_7f a = bit_and-bitwise a 0x7F ∙ masked_7f a a (omega arith)
