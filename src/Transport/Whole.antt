-- ===== src/Transport/Whole.antt =====
-- src/transport.rs: what `write_all` hands to the transport.
use mqtt_wasi.Prelude.{
  ℕ, zero, suc, ◌+◌, ◌≤◌, ◌<◌, ◌≡◌, ◌≢◌, refl, sym, ap, ◌∙◌, Bool-cases, inl, inr, true, [], ◌∷◌,
  ◌++◌, append-nil, append_assoc, arith, length, take, drop, is_empty, length-drop,
  take-append-drop, take-take-drop,
}
use mqtt_wasi.Errors.{interrupted, write_zero, Error, Result, ok, err, out_of_fuel, Ends, Ends-ok}
use mqtt_wasi.Io.{IoResult, done, failed}
use mqtt_wasi.Codec.Words.{Bytes}
use mqtt_wasi.Transport.{after_write, write_all}

-- What `write` says of the bytes that have been handed over.
abbrev pub Hands : {W : Type 0} → (W → Bytes) → Bytes → W → IoResult ℕ × W → Type 0
Hands log buf w (done n, w') = (n ≤ length buf) × (log w' ≡ log w ++ take n buf)
Hands log buf w (failed kind, w') = log w' ≡ log w

-- The contract of `write`: it reports how many of the bytes it took, and takes none when it fails.
pub record Logs {W : Type 0} (write : Bytes → W → IoResult ℕ × W) : Type 0 where
  pub log : W → Bytes
  pub hands : (buf : Bytes) (w : W) → Hands log buf w (write buf w)

module _ {W : Type 0} (write : Bytes → W → IoResult ℕ × W) (logs : Logs write) where
  -- After `buf` was to be written: all of it was, or a part from its start.
  abbrev pub Written : Bytes → W → Result (Unit {0}) × W → Type 0
  Written buf w (ok u, w') = logs.log w' ≡ logs.log w ++ buf
  Written buf w (err e, w') = (k : ℕ) × (logs.log w' ≡ logs.log w ++ take k buf)

  -- The rest is written after a part.
  Written-rest :
      (n : ℕ) (buf : Bytes) (w w' : W) (o : Result (Unit {0}) × W)
      → logs.log w' ≡ logs.log w ++ take n buf
      → Written (drop n buf) w' o
      → Written buf w o
  Written-rest n buf w w' (ok u, w'') e p =
      p
      ∙ ap (λ l. l ++ drop n buf) e
      ∙ append_assoc (logs.log w) (take n buf) (drop n buf)
      ∙ ap (λ l. logs.log w ++ l) (take-append-drop n buf)
  Written-rest n buf w w' (err why, w'') e (k, p) = (
    n + k,
    p
        ∙ ap (λ l. l ++ take k (drop n buf)) e
        ∙ append_assoc (logs.log w) (take n buf) (take k (drop n buf))
        ∙ ap (λ l. logs.log w ++ l) (take-take-drop n k buf),
  )

  -- Nothing was written yet.
  untouched :
      (buf : Bytes) (w w' : W) (e : Error) → logs.log w' ≡ logs.log w → Written buf w (err e, w')
  untouched buf w w' e same = (0, same ∙ sym (append-nil (logs.log w)))

  -- the same log as before the round
  moved :
      (buf : Bytes) (w w' : W) (o : Result (Unit {0}) × W)
      → logs.log w' ≡ logs.log w
      → Written buf w' o
      → Written buf w o
  moved buf w w' (ok u, w'') same p = p ∙ ap (λ l. l ++ buf) same
  moved buf w w' (err e, w'') same (k, p) = (k, p ∙ ap (λ l. l ++ take k buf) same)

  round-Written :
      (again : Bytes → W → Result (Unit {0}) × W) (buf : Bytes) (w : W) (r : IoResult ℕ × W)
      → ((buf : Bytes) (w : W) → Written buf w (again buf w))
      → Hands logs.log buf w r
      → Written buf w (after_write again buf r)
  round-Written again buf w (done zero, w') k h =
      untouched buf w w' (Error.io write_zero) (h.1 ∙ append-nil _)
  round-Written again buf w (done (suc n), w') k h =
      Written-rest (suc n) buf w w' _ h.1 (k (drop (suc n) buf) w')
  round-Written again buf w (failed interrupted, w') k h = moved buf w w' _ h (k buf w')
  round-Written again buf w (failed kind, w') k h = untouched buf w w' (Error.io kind) h

  nothing_left : (buf : Bytes) → is_empty buf ≡ true → buf ≡ []
  nothing_left [] e = refl
  nothing_left (b ∷ buf) e = cc

  -- Over a transport that keeps the contract of `write`, `write_all` hands over exactly the buffer
  -- when it succeeds, in order and without a repeat, whatever the parts in which the transport takes
  -- it and however often it is interrupted; when it fails it has handed over a part from the start.
  pub write_all-Written :
      (fuel : ℕ) (buf : Bytes) (w : W) → Written buf w (write_all write fuel buf w)
  unfolding write_all
  write_all-Written zero buf w = untouched buf w w out_of_fuel refl
  write_all-Written (suc fuel) buf w = elim (Bool-cases (is_empty buf)) [
    | inl nothing ↦
        let e : buf ≡ [] = nothing_left buf nothing in
        rw (nothing, e) (sym (append-nil (logs.log w)))
    | inr more ↦ rw more (
        round-Written (write_all write fuel) buf w (write buf w) (write_all-Written fuel)
          (logs.hands buf w))
  ]

module _ {W : Type 0} (write : Bytes → W → IoResult ℕ × W) where
  round-Ends :
      (again : Bytes → W → Result (Unit {0}) × W) (buf : Bytes) (r : IoResult ℕ × W)
      → ((rest : Bytes) (w : W) → length rest < length buf → Ends (again rest w).0)
      → 0 < length buf
      → r.0 ≢ failed interrupted
      → Ends (after_write again buf r).0
  round-Ends again buf (done zero, w) k left never = record { ends = λ e. cc }
  round-Ends again buf (done (suc n), w) k left never =
      k (drop (suc n) buf) w (omega (arith, length-drop (suc n) buf))
  round-Ends again buf (failed interrupted, w) k left never = absurd (never refl)
  round-Ends again buf (failed kind, w) k left never = record { ends = λ e. cc }

  -- Over a transport that is never interrupted, `write_all` ends: it needs no more rounds than there
  -- are bytes, and one.
  pub write_all-Ends :
      (uninterrupted : (buf : Bytes) (w : W) → (write buf w).0 ≢ failed interrupted) (fuel : ℕ)
      (buf : Bytes) (w : W)
      → length buf < fuel
      → Ends (write_all write fuel buf w).0
  unfolding write_all
  write_all-Ends uninterrupted zero buf w enough = absurd (omega arith)
  write_all-Ends uninterrupted (suc fuel) [] w enough = Ends-ok tt
  write_all-Ends uninterrupted (suc fuel) (b ∷ buf) w enough =
      round-Ends (write_all write fuel) (b ∷ buf) (write (b ∷ buf) w)
        (λ rest w' shorter. write_all-Ends uninterrupted fuel rest w' (omega arith)) (omega arith)
        (uninterrupted (b ∷ buf) w)
