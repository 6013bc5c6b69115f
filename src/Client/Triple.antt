-- ===== src/Client/Triple.antt =====
-- src/client.rs: what a method gives and leaves, from a condition on the client that it takes.
use mqtt_wasi.Prelude.{◌≡◌, refl, Bool, true, false, if◌then◌else◌}
use mqtt_wasi.Errors.{Error, Result, ok, err}
use mqtt_wasi.Client.State.{MqttClient}
use mqtt_wasi.Client.Action.{Act, Outcome, and_then, ◌>>=◌, lift, close, or_close, call}

module _ {W : Type 0} (Bad : Error → MqttClient W → Type 0) where
  -- A value and the client it comes with, or an error and the client left behind.
  abbrev pub Post : {A : Type 0} → (A → MqttClient W → Type 0) → Outcome W A → Type 0
  Post Good (ok a, c) = Good a c
  Post Good (err e, c) = Bad e c

  pub record Triple {A : Type 0} (P : MqttClient W → Type 0) (m : Act W A)
      (Good : A → MqttClient W → Type 0) : Type 0 where
    pub runs : (c : MqttClient W) → P c → Post Good (m c)

  Post-and_then :
      {A B : Type 0} (Good : A → MqttClient W → Type 0) (Good' : B → MqttClient W → Type 0)
      (o : Outcome W A) (next : A → Act W B)
      → Post Good o
      → ((a : A) → Triple (Good a) (next a) Good')
      → Post Good' (and_then next o)
  Post-and_then Good Good' (err e, c) next p k = p
  Post-and_then Good Good' (ok a, c) next p k = (k a).runs c p

  pub Triple-bind :
      {A B : Type 0} {P : MqttClient W → Type 0} (Good : A → MqttClient W → Type 0)
      {Good' : B → MqttClient W → Type 0} {m : Act W A} {next : A → Act W B}
      → Triple P m Good
      → ((a : A) → Triple (Good a) (next a) Good')
      → Triple P (m >>= next) Good'
  unfolding ◌>>=◌
  Triple-bind Good {Good'} {m} {next} km kn = record {
    runs = λ c p. Post-and_then Good Good' (m c) next (km.runs c p) kn;
  }

  module _ {A : Type 0} (P : MqttClient W → Type 0) (Good : A → MqttClient W → Type 0) where
    pub Triple-lift :
        (r : Result A)
        → ((a : A) → r ≡ ok a → (c : MqttClient W) → P c → Good a c)
        → ((e : Error) → r ≡ err e → (c : MqttClient W) → P c → Bad e c)
        → Triple P (lift r) Good
    Triple-lift (ok a) good bad = record { runs = λ c p. good a refl c p }
    Triple-lift (err e) good bad = record { runs = λ c p. bad e refl c p }

    pub Triple-if :
        (b : Bool) (m n : Act W A)
        → Triple P m Good
        → Triple P n Good
        → Triple P (if b then m else n) Good
    Triple-if true m n km kn = km
    Triple-if false m n km kn = kn

    pub Post-if :
        (b : Bool) (o o' : Outcome W A)
        → (b ≡ true → Post Good o)
        → (b ≡ false → Post Good o')
        → Post Good (if b then o else o')
    Post-if true o o' f g = f refl
    Post-if false o o' f g = g refl

    pub Triple-or_close :
        (r : Result A)
        → ((a : A) → r ≡ ok a → (c : MqttClient W) → P c → Good a c)
        → ((e : Error) → (c : MqttClient W) → P c → Bad e (close c))
        → Triple P (or_close r) Good
    Triple-or_close (ok a) good bad = record { runs = λ c p. good a refl c p }
    Triple-or_close (err e) good bad = record { runs = λ c p. bad e c p }

  module _ {A : Type 0} (P : MqttClient W → Type 0) where
    -- A call of the transport, where `P` does not read the transport's state.
    pub Triple-call :
        ((c : MqttClient W) (w : W) → P c → P (record c { stream = w }))
        → (f : W → A × W) → Triple P (call f) (λ a. P)
    Triple-call keeps f = record { runs = λ c p. keeps c (f c.stream).1 p }

-- Under a weaker condition on what an error leaves.
module _ {W A : Type 0} (Bad Bad' : Error → MqttClient W → Type 0)
    (Good : A → MqttClient W → Type 0)
    (weaker : (e : Error) (c : MqttClient W) → Bad e c → Bad' e c) where
  pub Post-weaken : (o : Outcome W A) → Post Bad Good o → Post Bad' Good o
  Post-weaken (ok a, c) p = p
  Post-weaken (err e, c) p = weaker e c p

  pub Triple-weaken :
      (P : MqttClient W → Type 0) (m : Act W A) → Triple Bad P m Good → Triple Bad' P m Good
  Triple-weaken P m t = record { runs = λ c p. Post-weaken (m c) (t.runs c p) }

-- What holds after an error of the outcome.
pub Post-err :
    {W A : Type 0} (Bad : Error → MqttClient W → Type 0) (Good : A → MqttClient W → Type 0)
    (o : Outcome W A)
    → Post Bad Good o
    → (e : Error) → o.0 ≡ err e
    → Bad e o.1
Post-err Bad Good (ok a, c) p e h = cc
Post-err Bad Good (err why, c) p e h = let same : e ≡ why = cc in rw same p

-- A fact that is not about the client.
module _ {W A : Type 0} (Bad : Error → MqttClient W → Type 0)
    (Good : A → MqttClient W → Type 0) where
  pub Post-fact :
      (F : Type 0) (o : Outcome W A) → F → Post Bad Good o → Post Bad (λ a c. Good a c × F) o
  Post-fact F (ok a, c) f p = (p, f)
  Post-fact F (err e, c) f p = p

  pub Triple-fact :
      (F : Type 0) (P : MqttClient W → Type 0) (m : Act W A)
      → Triple Bad P m Good
      → Triple Bad (λ c. P c × F) m (λ a c. Good a c × F)
  Triple-fact F P m t = record { runs = λ c p. Post-fact F (m c) p.1 (t.runs c p.0) }
