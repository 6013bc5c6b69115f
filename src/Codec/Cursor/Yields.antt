-- ===== src/Codec/Cursor/Yields.antt =====
-- Reads by what they give: `Yields P read` says that whatever `read` gives satisfies `P`.
use mqtt_wasi.Prelude.{◌≡◌, Bool, true, false, if◌then◌else◌}
use mqtt_wasi.Errors.{Result, ok, bind-eq-ok}
use mqtt_wasi.Codec.Cursor.{Cursor, Read, ◌>>=◌, pure, lift}

pub record Yields {A : Type 0} (P : A → Type 0) (read : Read A) : Type 0 where
  pub at : (c : Cursor) (a : A) (c' : Cursor) → read c ≡ ok (a, c') → P a

module _ {A B : Type 0} (P : B → Type 0) where
  -- What was read first may satisfy a predicate of its own.
  pub Yields-bind :
      (Q : A → Type 0) (read : Read A) (f : A → Read B)
      → Yields Q read
      → ((a : A) → Q a → Yields P (f a))
      → Yields P (read >>= f)
  Yields-bind Q read f y z = record {
    at = λ c b c' h.
        let (got, h₁, h₂) = bind-eq-ok (read c) _ h in
        (z got.0 (y.at c got.0 got.1 h₁)).at got.1 b c' h₂;
  }

  -- Whatever was read first.
  pub Yields-after :
      (read : Read A) (f : A → Read B) → ((a : A) → Yields P (f a)) → Yields P (read >>= f)
  Yields-after read f z = Yields-bind (λ a. Unit) read f (record { at = λ c a c' h. tt }) λ a u. z a

module _ {A : Type 0} (P : A → Type 0) where
  pub Yields-pure : (a : A) → P a → Yields P (pure a)
  Yields-pure a p = record { at = λ c b c' h. let e : b ≡ a = cc in rw e p }

  pub Yields-lift : (r : Result A) → ((a : A) → r ≡ ok a → P a) → Yields P (lift r)
  Yields-lift r p = record {
    at = λ c b c' h. let (a, h₁, h₂) = bind-eq-ok r _ h in let e : b ≡ a = cc in rw e (p a h₁);
  }

  pub Yields-if :
      (b : Bool) (x y : Read A) → Yields P x → Yields P y → Yields P (if b then x else y)
  Yields-if true x y p q = p
  Yields-if false x y p q = q
