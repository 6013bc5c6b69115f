-- ===== src/Client/Evolves.antt =====
-- src/client.rs: what a method may do to the client, and how that composes.
use mqtt_wasi.Prelude.{
  ℕ, ◌≤◌, ◌<◌, ◌≡◌, refl, ◌∙◌, Bool, true, false, Option, if◌then◌else◌, length, inl, inr,
  Bool-cases,
}
use mqtt_wasi.Errors.{Error, Result, ok, err}
use mqtt_wasi.Frame.Bounds.{IsBounded}
use mqtt_wasi.Client.State.{MqttClient}
use mqtt_wasi.Client.Action.{
  Act, Outcome, Does, and_then, ◌>>=◌, lift, close, close_on, close_with, or_close, call, through,
}

-- The state of a client: its reader is within the bound, its queue too, and the next identifier is
-- one that MQTT allows.
abbrev pub IsSound : {W : Type 0} → MqttClient W → Type 0
IsSound c =
    IsBounded c.frame_reader
    × (length c.incoming ≤ c.max_incoming_messages)
    × (1 ≤ c.next_packet_id)
    × (c.next_packet_id < 65536)

module _ {W : Type 0} where
  -- From `c` to `c'`: a sound client stays sound, a closed one stays closed, and the limits stay.
  pub record Evolves (c c' : MqttClient W) : Type 0 where
    pub sound : IsSound c → IsSound c'
    pub closed : c.connected ≡ false → c'.connected ≡ false
    pub same_queue_max : c'.max_incoming_messages ≡ c.max_incoming_messages
    pub same_outbound_max : c'.max_outbound_packet_size ≡ c.max_outbound_packet_size

  pub Evolves-refl : (c : MqttClient W) → Evolves c c
  Evolves-refl c = record {
    sound = λ s. s;
    closed = λ e. e;
    same_queue_max = refl;
    same_outbound_max = refl;
  }

  pub Evolves-trans : {a b c : MqttClient W} → Evolves a b → Evolves b c → Evolves a c
  Evolves-trans f g = record {
    sound = λ s. g.sound (f.sound s);
    closed = λ e. g.closed (f.closed e);
    same_queue_max = g.same_queue_max ∙ f.same_queue_max;
    same_outbound_max = g.same_outbound_max ∙ f.same_outbound_max;
  }

  pub Evolves-close : (c : MqttClient W) → Evolves c (close c)
  Evolves-close c = record {
    sound = λ s. s;
    closed = λ e. refl;
    same_queue_max = refl;
    same_outbound_max = refl;
  }

  -- the transport's state and the times, which no part of `Evolves` reads
  pub Evolves-times :
      (c : MqttClient W) (w : W) (read_at write_at : ℕ) (sent_at : Option ℕ)
      → Evolves c (record c {
        stream = w;
        last_read_at = read_at;
        last_write_at = write_at;
        ping_sent_at = sent_at;
      })
  Evolves-times c w read_at write_at sent_at = record {
    sound = λ s. s;
    closed = λ e. e;
    same_queue_max = refl;
    same_outbound_max = refl;
  }

  pub Evolves-stream : (c : MqttClient W) (w : W) → Evolves c (record c { stream = w })
  Evolves-stream c w = Evolves-times c w c.last_read_at c.last_write_at c.ping_sent_at

  -- Whatever it gives, the method takes each client to one that it may evolve to.
  pub record Keeps {A : Type 0} (m : Act W A) : Type 0 where
    pub keeps : (c : MqttClient W) → Evolves c (m c).1

  pub Evolves-if :
      {A : Type 0} (c : MqttClient W) (b : Bool) (o o' : Outcome W A)
      → (b ≡ true → Evolves c o.1)
      → (b ≡ false → Evolves c o'.1)
      → Evolves c (if b then o else o').1
  Evolves-if c true o o' f g = f refl
  Evolves-if c false o o' f g = g refl

  module _ {A : Type 0} where
    pub Keeps-lift : (r : Result A) → Keeps (lift r)
    Keeps-lift r = record { keeps = λ c. Evolves-refl c }

    pub Keeps-close_with : (e : Error) → Keeps {A = A} (close_with e)
    Keeps-close_with e = record { keeps = λ c. Evolves-close c }

    or_close-Evolves : (r : Result A) (c : MqttClient W) → Evolves c (or_close r c).1
    or_close-Evolves (err e) c = Evolves-close c
    or_close-Evolves (ok a) c = Evolves-refl c

    pub Keeps-or_close : (r : Result A) → Keeps (or_close r)
    Keeps-or_close r = record { keeps = or_close-Evolves r }

    pub Keeps-call : (f : W → A × W) → Keeps (call f)
    Keeps-call f = record { keeps = λ c. Evolves-stream c (f c.stream).1 }

    pub Keeps-through : (m : Does W A) → Keeps (through m)
    Keeps-through m = record { keeps = λ c. Evolves-stream c (m c.stream).1 }

  pub Evolves-close_on :
      {A : Type 0} (c : MqttClient W) (matches : Error → Bool) (o : Outcome W A)
      → Evolves c o.1
      → Evolves c (close_on matches o).1
  Evolves-close_on c matches (ok a, c') f = f
  Evolves-close_on c matches (err e, c') f = elim (Bool-cases (matches e)) [
    | inl matched ↦ rw matched (Evolves-trans f (Evolves-close c'))
    | inr other ↦ rw other f
  ]

  Evolves-and_then :
      {A B : Type 0} (c : MqttClient W) (o : Outcome W A) (next : A → Act W B)
      → Evolves c o.1
      → ((a : A) → Keeps (next a))
      → Evolves c (and_then next o).1
  Evolves-and_then c (err e, c') next f k = f
  Evolves-and_then c (ok a, c') next f k = Evolves-trans f ((k a).keeps c')

  pub Keeps-bind :
      {A B : Type 0} {m : Act W A} {next : A → Act W B}
      → Keeps m
      → ((a : A) → Keeps (next a))
      → Keeps (m >>= next)
  unfolding ◌>>=◌
  Keeps-bind {m} {next} km kn = record {
    keeps = λ c. Evolves-and_then c (m c) next (km.keeps c) kn;
  }
