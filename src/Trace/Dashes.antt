-- ===== src/Trace/Dashes.antt =====
-- src/trace.rs: splitting at the dashes, and the comparison of keys.
use mqtt_wasi.Prelude.{◌≡◌, refl, false, [], ◌∷◌, ◌++◌, ◌==◌, arith}
use mqtt_wasi.Codec.Words.{Bytes}
use mqtt_wasi.Codec.Topic.{has}
use mqtt_wasi.Trace.{dash, split}

-- What stands before the first dash is the first part.
pub split-append :
    (part rest : Bytes) → has dash part ≡ false → split (part ++ dash ∷ rest) ≡ part ∷ split rest
unfolding split
split-append [] rest e = refl
split-append (b ∷ part) rest e =
    let here : (b == dash) ≡ false = ground arith in
    let later : has dash part ≡ false = ground arith in rw (here, split-append part rest later)

-- Without a dash there is one part.
pub split-whole : (part : Bytes) → has dash part ≡ false → split part ≡ part ∷ []
unfolding split
split-whole [] e = refl
split-whole (b ∷ part) e =
    let here : (b == dash) ≡ false = ground arith in
    let later : has dash part ≡ false = ground arith in rw (here, split-whole part later)
