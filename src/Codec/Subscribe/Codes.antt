-- ===== src/Codec/Subscribe/Codes.antt =====
-- src/codec/subscribe.rs: `validate_suback_codes`.
use mqtt_wasi.Prelude.{
  ℕ, ◌≤◌, ◌≡◌, ◌↔◌, refl, false, not, ◌||◌, List, [], ◌∷◌, ltb, leb, ◌==◌, ==_iff, arith, length,
  not-eq-false,
}
use mqtt_wasi.Errors.{ok, bind-eq-ok, fail_if, fail_if-eq-ok}
use mqtt_wasi.Codec.Types.{QoS, at_most_once, at_least_once, qos_code}
use mqtt_wasi.Codec.Subscribe.Encode.{validate_suback_codes, suback_codes_loop}

-- The broker grants every subscription, at the level that was requested or a lower one.
pub data Granted : List ℕ → List QoS → Type 0 where
  none_asked : Granted [] []
  one_more :
      (code : ℕ) (requested : QoS) (codes : List ℕ) (levels : List QoS)
      → code ≤ qos_code requested
      → Granted codes levels
      → Granted (code ∷ codes) (requested ∷ levels)

qos_code-le : (qos : QoS) → qos_code qos ≤ 1
unfolding qos_code
qos_code-le at_most_once = omega arith
qos_code-le at_least_once = omega arith

Granted-length :
    (codes : List ℕ) (levels : List QoS) → Granted codes levels → length codes ≡ length levels
Granted-length codes levels none_asked = refl
Granted-length codes levels (one_more code requested codes' levels' le rest) =
    omega (arith, Granted-length codes' levels' rest)

loop-Granted :
    (codes : List ℕ) (levels : List QoS)
    → Granted codes levels
    → suback_codes_loop codes levels ≡ ok tt
unfolding suback_codes_loop
loop-Granted codes levels none_asked = refl
loop-Granted codes levels (one_more code requested codes' levels' le rest) =
    let small = qos_code-le requested in
    let e₁ : leb 0x80 code ≡ false = ground arith in
    let e₂ : (code == 2 || ltb (qos_code requested) code) ≡ false = ground arith in
    rw (e₁, e₂) (loop-Granted codes' levels' rest)

Granted-loop :
    (codes : List ℕ) (levels : List QoS)
    → length codes ≡ length levels
    → suback_codes_loop codes levels ≡ ok tt
    → Granted codes levels
unfolding suback_codes_loop
Granted-loop [] [] e h = none_asked
Granted-loop [] (q ∷ levels) e h = absurd (omega arith)
Granted-loop (code ∷ codes) [] e h = absurd (omega arith)
Granted-loop (code ∷ codes) (q ∷ levels) e h =
    let (_, h₁, rest₁) = bind-eq-ok (fail_if (leb 0x80 code) _) _ h in
    let (_, h₂, rest₂) = bind-eq-ok (fail_if (code == 2 || ltb (qos_code q) code) _) _ rest₁ in
    let no = fail_if-eq-ok _ _ h₂ in
    let le : code ≤ qos_code q = ground arith in
    one_more code q codes levels le (Granted-loop codes levels (omega arith) rest₂)

-- `validate_suback_codes` accepts exactly the codes that are as many as the requested levels, each
-- one at most the level that was requested at its place.
pub validate_suback_codes_iff :
    (codes : List ℕ) (levels : List QoS)
    → (validate_suback_codes codes levels ≡ ok tt) ↔ Granted codes levels
unfolding validate_suback_codes
validate_suback_codes_iff codes levels = (forth, back)
  where
    forth : validate_suback_codes codes levels ≡ ok tt → Granted codes levels
    forth h =
        let (_, h₁, rest) = bind-eq-ok (fail_if (not (length codes == length levels)) _) _ h in
        let same =
          (==_iff (length codes) (length levels)).0 (not-eq-false _ (fail_if-eq-ok _ _ h₁)) in
        Granted-loop codes levels same rest

    back : Granted codes levels → validate_suback_codes codes levels ≡ ok tt
    back g =
        let same = (==_iff (length codes) (length levels)).1 (Granted-length codes levels g) in
        rw same (loop-Granted codes levels g)
