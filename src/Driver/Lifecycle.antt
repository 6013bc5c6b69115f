-- ===== src/Driver/Lifecycle.antt =====
-- src/async_client.rs: `RequestLifecycle`, shared between the callers of requests and the driver. A
-- `HashSet` is a list, where `insert` takes an element once.
use mqtt_wasi.Prelude.{ℕ, Bool, true, false, List, [], ◌∷◌, any, leb, length, if◌then◌else◌}
use mqtt_wasi.Errors.{Result, ok, err, queue_full, invalid_options}
use mqtt_wasi.Codec.Words.{Bytes, same_bytes}

abbrev pub contains : Bytes → List Bytes → Bool
contains key set = any (same_bytes key) set

abbrev pub insert : Bytes → List Bytes → List Bytes
insert key set = if contains key set then set else key ∷ set

unfoldable pub remove : Bytes → List Bytes → List Bytes
unfolding same_bytes
remove key [] = []
remove key (k ∷ set) = let rest = remove key set in if same_bytes key k then rest else k ∷ rest

pub record RequestLifecycle : Type 0 where
  pub active : List Bytes
  pub cancelled : List Bytes
  pub max_active : ℕ

unfoldable pub new_lifecycle : ℕ → RequestLifecycle
new_lifecycle max_active = record { active = []; cancelled = []; max_active = max_active }

unfoldable pub register : Bytes → RequestLifecycle → Result (Unit {0}) × RequestLifecycle
register key l =
    if leb l.max_active (length l.active)
    then (err (queue_full "pending request"), l)
    else if contains key l.active
    then (err (invalid_options "duplicate request correlation data"), l)
    else (ok tt, record l { active = key ∷ l.active })

unfoldable pub cancel : Bytes → RequestLifecycle → RequestLifecycle
cancel key l = if contains key l.active then record l { cancelled = insert key l.cancelled } else l

unfoldable pub consume_cancellation : Bytes → RequestLifecycle → Bool × RequestLifecycle
unfolding remove
consume_cancellation key l =
    if contains key l.cancelled
    then (true, record l { cancelled = remove key l.cancelled; active = remove key l.active })
    else (false, l)

unfoldable pub finish : Bytes → RequestLifecycle → RequestLifecycle
unfolding remove
finish key l = record l { active = remove key l.active; cancelled = remove key l.cancelled }
