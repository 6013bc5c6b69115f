-- ===== src/Transport.antt =====
-- src/transport.rs: the default method `Transport::write_all`, over the method `write`.
pub mod Whole
use mqtt_wasi.Prelude.{ℕ, zero, suc, Bool, true, false, [], ◌∷◌, drop, is_empty, if◌then◌else◌}
use mqtt_wasi.Errors.{ErrorKind, interrupted, write_zero, Error, Result, ok, err, out_of_fuel}
use mqtt_wasi.Io.{IoResult, done, failed}
use mqtt_wasi.Codec.Words.{Bytes}

module _ {W : Type 0} where
  -- what a round does with the result of `write`, where `again` is the next round
  abbrev pub after_write :
      (Bytes → W → Result (Unit {0}) × W) → Bytes → IoResult ℕ × W → Result (Unit {0}) × W
  after_write again buf (done zero, w) = (err (Error.io write_zero), w)
  after_write again buf (done (suc written), w) = again (drop (suc written) buf) w
  after_write again buf (failed interrupted, w) = again buf w
  after_write again buf (failed kind, w) = (err (Error.io kind), w)

module _ {W : Type 0} (write : Bytes → W → IoResult ℕ × W) where
  -- The loop, with fuel for its rounds.
  unfoldable pub write_all : ℕ → Bytes → W → Result (Unit {0}) × W
  write_all zero buf w = (err out_of_fuel, w)
  write_all (suc fuel) buf w =
      if is_empty buf then (ok tt, w) else after_write (write_all fuel) buf (write buf w)
