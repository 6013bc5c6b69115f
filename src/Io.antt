-- ===== src/Io.antt =====
-- src/transport.rs: the trait `Transport`, and the clock. A byte stream and `Instant::now()` are
-- parameters of the model: functions on a world `W`, which the caller chooses. An instant is a
-- number of nanoseconds, and so is a duration.
use mqtt_wasi.Prelude.{ℕ, ◌+◌, ◌*◌, Bool, Option, none, some, leb, if◌then◌else◌}
use mqtt_wasi.Errors.{ErrorKind, Error, Result, ok, err}
use mqtt_wasi.Codec.Words.{Bytes}

-- `io::Result<T>`, of whose errors the source reads the kind.
pub data IoResult (A : Type 0) : Type 0 where
  done : A → IoResult A
  failed : ErrorKind → IoResult A

-- `?` on an `io::Result`
abbrev pub io_error : {A : Type 0} → IoResult A → Result A
io_error (done a) = ok a
io_error (failed kind) = err (Error.io kind)

pub record Io (W : Type 0) : Type 0 where
  -- `Instant::now()`
  pub now : W → ℕ × W
  -- the greatest instant that the platform represents
  pub latest : ℕ
  pub write : Bytes → W → IoResult ℕ × W
  pub write_all : Bytes → W → IoResult (Unit {0}) × W
  pub flush : W → IoResult (Unit {0}) × W
  -- a read into a buffer of the given length, with the bytes that it filled
  pub read : ℕ → W → IoResult Bytes × W
  pub set_nonblocking : Bool → W → IoResult (Unit {0}) × W
  pub set_read_timeout : Option ℕ → W → IoResult (Unit {0}) × W
  pub set_write_timeout : Option ℕ → W → IoResult (Unit {0}) × W
  pub shutdown : W → IoResult (Unit {0}) × W

-- `instant.checked_add(duration)`
abbrev pub instant_add : ℕ → ℕ → ℕ → Option ℕ
instant_add latest at duration = if leb (at + duration) latest then some (at + duration) else none

abbrev pub from_secs : ℕ → ℕ
from_secs secs = secs * 1_000_000_000

abbrev pub from_millis : ℕ → ℕ
from_millis millis = millis * 1_000_000
