-- ===== src/Errors.antt =====
-- src/error.rs: the errors of every operation, and `Result<T>`.
use mqtt_wasi.Prelude.{ℕ, String, ◌≡◌, ◌≢◌, refl, if◌then◌else◌, Bool, true, false, ◌⊎◌, inl, inr}

-- What the source reads of a `std::io::Error`: its kind.
pub data ErrorKind : Type 0 where
  timed_out would_block interrupted connection_refused invalid_input write_zero invalid_data other :
      ErrorKind

-- The last constructor is no value of the source: it says that a loop of the model ran out of
-- fuel.
pub data Error : Type 0 where
  invalid_options : String → Error
  malformed_packet : String → Error
  invalid_packet_type : ℕ → Error
  invalid_qos : ℕ → Error
  invalid_reason_code : ℕ → Error
  connection_refused : ℕ → Error
  server_disconnected : ℕ → Error
  packet_too_large : ℕ → ℕ → Error
  string_too_long : ℕ → Error
  binary_too_long : ℕ → Error
  timeout : String → Error
  keep_alive_timeout : Error
  unexpected_packet : String → Error
  ack_rejected : String → ℕ → Error
  queue_full : String → Error
  client_closed : Error
  serialize : String → Error
  deserialize : String → Error
  connection_closed : Error
  io : ErrorKind → Error
  out_of_fuel : Error

pub data Result {ℓ} (A : Type ℓ) : Type ℓ where
  err : Error → Result A
  ok : A → Result A

-- `if b { return Err(e) }`
abbrev pub fail_if : Bool → Error → Result (Unit {0})
fail_if false e = ok tt
fail_if true e = err e

-- What `?` does: an error is returned at once.
infixl 5 ◌>>=◌
abbrev pub ◌>>=◌ {κ ℓ} : {A : Type ℓ} {B : Type κ} (r : Result A) (next : A → Result B) → Result B
err e >>= next = err e
ok value >>= next = next value

infixl 5 ◌>>◌
abbrev pub ◌>>◌ {ℓ} : {B : Type ℓ} (check : Result (Unit {0})) (rest : Result B) → Result B
check >> rest = check >>= λ _. rest

pub Result-cases {ℓ} :
    {A : Type ℓ} (r : Result A) → ((a : A) × (r ≡ ok a)) ⊎ ((e : Error) × (r ≡ err e))
Result-cases (ok a) = inl (a, refl)
Result-cases (err e) = inr (e, refl)

-- A bind that succeeds, taken apart.
pub bind-eq-ok {ℓ κ} :
    {B : Type κ} {A : Type ℓ} (r : Result A) (next : A → Result B) {out : B}
    (success : (r >>= next) ≡ ok out)
    → (value : A) × (r ≡ ok value) × (next value ≡ ok out)
bind-eq-ok (err e) next success = cc
bind-eq-ok (ok value) next success = (value, refl, success)

pub fail_if-eq-ok : (b : Bool) (e : Error) {u : Unit {0}} → fail_if b e ≡ ok u → b ≡ false
fail_if-eq-ok true e h = cc
fail_if-eq-ok false e h = refl

-- The model did not run out of fuel.
pub record Ends {ℓ} {A : Type ℓ} (r : Result A) : Type ℓ where
  pub ends : r ≢ err out_of_fuel

pub Ends-ok {ℓ} : {A : Type ℓ} (a : A) → Ends (ok a)
Ends-ok a = record { ends = λ e. cc }

pub Ends-malformed {ℓ} : (A : Type ℓ) (why : String) → Ends {A = A} (err (malformed_packet why))
Ends-malformed A why = record { ends = λ e. cc }

pub Ends-bind {ℓ κ} :
    {A : Type ℓ} {B : Type κ} (r : Result A) (f : A → Result B)
    → Ends r
    → ((a : A) → Ends (f a))
    → Ends (r >>= f)
Ends-bind (ok a) f h k = k a
Ends-bind (err e) f h k = record { ends = λ p. h.ends (cc p) }

pub Ends-if {ℓ} :
    {A : Type ℓ} (b : Bool) (x y : Result A) → Ends x → Ends y → Ends (if b then x else y)
Ends-if true x y p q = p
Ends-if false x y p q = q

pub Ends-fail_if : (b : Bool) (why : String) → Ends (fail_if b (malformed_packet why))
Ends-fail_if true why = record { ends = λ e. cc }
Ends-fail_if false why = record { ends = λ e. cc }
