-- ===== src/Client/Action.antt =====
-- src/client.rs: what a method of `MqttClient` is. It takes the client, which it may change, and
-- gives a result and the client that it leaves: on an error too, as a `&mut self` method does.
use mqtt_wasi.Prelude.{ℕ, Bool, false, String, Option, none, some, if◌then◌else◌}
use mqtt_wasi.Errors.{Error, Result, ok, err, invalid_options}
use mqtt_wasi.Io.{Io, IoResult, io_error, instant_add}
use mqtt_wasi.Client.State.{MqttClient, Deadline}

abbrev pub Does : Type 0 → Type 0 → Type 0
Does S A = S → Result A × S

abbrev pub Outcome : Type 0 → Type 0 → Type 0
Outcome W A = Result A × MqttClient W

abbrev pub Act : Type 0 → Type 0 → Type 0
Act W A = Does (MqttClient W) A

module _ {S : Type 0} where
  -- What follows a method with `?`: an error leaves at once.
  abbrev pub and_then : {A B : Type 0} → (A → Does S B) → Result A × S → Result B × S
  and_then next (err e, c) = (err e, c)
  and_then next (ok a, c) = next a c

  -- a method that changes no field
  abbrev pub lift : {A : Type 0} → Result A → Does S A
  lift r c = (r, c)

  abbrev pub done_with : {A : Type 0} → A → Does S A
  done_with a c = (ok a, c)

  abbrev pub raise : {A : Type 0} → Error → Does S A
  raise e c = (err e, c)

  -- a call that cannot fail, or whose failure is a value
  abbrev always_ok : {A : Type 0} → A × S → Result A × S
  always_ok (a, s) = (ok a, s)

  abbrev pub calls : {A : Type 0} → (S → A × S) → Does S A
  calls f s = always_ok (f s)

infixl 5 ◌>>=◌ ◌>>◌
unfoldable pub ◌>>=◌ : {S A B : Type 0} → Does S A → (A → Does S B) → Does S B
m >>= next = λ c. and_then next (m c)

abbrev pub ◌>>◌ : {S A B : Type 0} → Does S A → Does S B → Does S B
m >> rest = m >>= λ _. rest

module _ {W : Type 0} where
  -- a field that is read, or set
  abbrev pub reads : {A : Type 0} → (MqttClient W → A) → Act W A
  reads f c = (ok (f c), c)

  abbrev pub sets : (MqttClient W → MqttClient W) → Act W (Unit {0})
  sets f c = (ok tt, f c)

  abbrev pub close : MqttClient W → MqttClient W
  close c = record c { connected = false }

  abbrev pub close_with : {A : Type 0} → Error → Act W A
  close_with e c = (err e, close c)

  -- the errors of one variant, on which the client closes
  abbrev pub close_on : {A : Type 0} → (Error → Bool) → Outcome W A → Outcome W A
  close_on matches (err e, c) = (err e, if matches e then close c else c)
  close_on matches (ok a, c) = (ok a, c)

  -- `if let Err(error) = r { self.connected = false; return Err(error); }`
  abbrev pub or_close : {A : Type 0} → Result A → Act W A
  or_close (err e) c = (err e, close c)
  or_close (ok a) c = (ok a, c)

  -- a call of the transport
  abbrev pub with_stream : {A : Type 0} → MqttClient W → A × W → A × MqttClient W
  with_stream c (a, w) = (a, record c { stream = w })

  abbrev pub call : {A : Type 0} → (W → A × W) → Act W A
  call f c = calls (λ c'. with_stream c' (f c'.stream)) c

  -- what is done to the stream alone
  abbrev pub through : {A : Type 0} → Does W A → Act W A
  through m c = with_stream c (m c.stream)

  -- a call of the transport with `?`
  abbrev pub io_call : {A : Type 0} → (W → IoResult A × W) → Does W A
  io_call f = calls f >>= λ r. lift (io_error r)

abbrev pub deadline_at : String → Option ℕ → Result Deadline
deadline_at operation none = err (invalid_options "timeout is too large")
deadline_at operation (some at) = ok (at, operation)

module _ {W : Type 0} (io : Io W) where
  -- `Instant::now()`
  abbrev pub now : Act W ℕ
  now = call io.now

  unfoldable pub deadline_after : ℕ → String → Does W Deadline
  deadline_after timeout operation = do
    at ← calls io.now
    lift (deadline_at operation (instant_add io.latest at timeout))
