-- ===== src/Driver/LifecycleInvariant.antt =====
-- src/async_client.rs: the states that the life cycle of requests reaches.
use mqtt_wasi.Prelude.{
  all, ℕ, ◌≡◌, refl, sym, ap, ◌∙◌, ◌≤◌, true, not, ◌&&◌, arith, List, [], ◌∷◌, leb, length,
  Bool-cases, inl, inr,
}
use mqtt_wasi.Codec.Words.{Bytes, same_bytes}
use mqtt_wasi.Driver.Lifecycle.{
  RequestLifecycle, contains, insert, remove, new_lifecycle, register, cancel, consume_cancellation,
  finish,
}

-- The sets that calls can leave, with room for `n` requests.
pub data Reached (n : ℕ) : RequestLifecycle → Type 0 where
  start : Reached n (new_lifecycle n)
  registered : {l : RequestLifecycle} → (key : Bytes) → Reached n l → Reached n (register key l).1
  cancelled : {l : RequestLifecycle} → (key : Bytes) → Reached n l → Reached n (cancel key l)
  consumed :
      {l : RequestLifecycle}
      → (key : Bytes) → Reached n l
      → Reached n (consume_cancellation key l).1
  finished : {l : RequestLifecycle} → (key : Bytes) → Reached n l → Reached n (finish key l)

same_bytes_eq : (xs ys : Bytes) → same_bytes xs ys ≡ true → xs ≡ ys
unfolding same_bytes
same_bytes_eq [] [] e = refl
same_bytes_eq [] (y ∷ ys) e = cc
same_bytes_eq (x ∷ xs) [] e = cc
same_bytes_eq (x ∷ xs) (y ∷ ys) e = grind (arith, same_bytes_eq xs ys)

same_bytes_refl : (xs : Bytes) → same_bytes xs xs ≡ true
unfolding same_bytes
same_bytes_refl [] = refl
same_bytes_refl (x ∷ xs) = ground (arith, same_bytes_refl xs)

same_bytes_comm : (xs ys : Bytes) → same_bytes xs ys ≡ same_bytes ys xs
unfolding same_bytes
same_bytes_comm [] [] = refl
same_bytes_comm [] (y ∷ ys) = refl
same_bytes_comm (x ∷ xs) [] = refl
same_bytes_comm (x ∷ xs) (y ∷ ys) = ground (arith, same_bytes_comm xs ys)

contains-remove :
    (x key : Bytes) (set : List Bytes)
    → contains x (remove key set) ≡ (not (same_bytes key x) && contains x set)
unfolding remove
contains-remove x key [] = ground arith
contains-remove x key (k ∷ set) =
    let ih = contains-remove x key set in
    let at_k : same_bytes key k ≡ true → same_bytes x k ≡ same_bytes key x =
      (λ e. same_bytes_comm x k ∙ ap (λ b. same_bytes b x) (sym (same_bytes_eq key k e))) in
    let at_x : same_bytes key x ≡ true → same_bytes x k ≡ same_bytes key k =
      (λ e. ap (λ b. same_bytes b k) (sym (same_bytes_eq key x e))) in
    grind arith

length-remove : (key : Bytes) (set : List Bytes) → length (remove key set) ≤ length set
unfolding remove
length-remove key [] = omega arith
length-remove key (k ∷ set) = ground (arith, length-remove key set)

-- What holds of the sets, seen at one element: there is room for the active requests, and a
-- cancelled one is active.
record IsSound (n : ℕ) (x : Bytes) (l : RequestLifecycle) : Type 0 where
  room : l.max_active ≡ n
  few : length l.active ≤ n
  active_if : contains x l.cancelled ≡ true → contains x l.active ≡ true

module _ (n : ℕ) (x key : Bytes) (l : RequestLifecycle) (s : IsSound n x l) where
  register-IsSound : IsSound n x (register key l).1
  unfolding register
  register-IsSound = elim (Bool-cases (leb l.max_active (length l.active))) [
    | inl full ↦ rw full s
    | inr e ↦ elim (Bool-cases (contains key l.active)) [
      | inl twice ↦ rw (e, twice) s
      | inr new ↦
          rw (e, new)
            (record {
              room = s.room;
              few = (let r = s.room in ground arith);
              active_if = (λ c. let h = s.active_if c in ground arith);
            })
    ]
  ]

  inserted :
      contains key l.active ≡ true
      → contains x (insert key l.cancelled) ≡ true
      → contains x l.active ≡ true
  inserted known c = elim (Bool-cases (same_bytes x key)) [
    | inl same ↦ ap (λ k. contains k l.active) (same_bytes_eq x key same) ∙ known
    | inr other ↦ let h = s.active_if in grind arith
  ]

  cancel-IsSound : IsSound n x (cancel key l)
  unfolding cancel
  cancel-IsSound = elim (Bool-cases (contains key l.active)) [
    | inl known ↦
        rw known (record { room = s.room; few = s.few; active_if = (λ c. inserted known c) })
    | inr unknown ↦ rw unknown s
  ]

  finish-IsSound : IsSound n x (finish key l)
  unfolding finish
  finish-IsSound = record {
    room = s.room;
    few = (let h = length-remove key l.active in let k = s.few in omega arith);
    active_if = (λ e.
        let a = contains-remove x key l.active in
        let c = contains-remove x key l.cancelled in let k = s.active_if in grind arith);
  }

  consume-IsSound : IsSound n x (consume_cancellation key l).1
  unfolding consume_cancellation finish
  consume-IsSound = elim (Bool-cases (contains key l.cancelled)) [
    | inl known ↦ rw known finish-IsSound
    | inr unknown ↦ rw unknown s
  ]

sound : (n : ℕ) (x : Bytes) (l : RequestLifecycle) → Reached n l → IsSound n x l
sound n x l start =
    unfold new_lifecycle in record { room = refl; few = omega arith; active_if = (λ e. cc) }
sound n x _ (registered {l} key h) = register-IsSound n x key l (sound n x l h)
sound n x _ (cancelled {l} key h) = cancel-IsSound n x key l (sound n x l h)
sound n x _ (consumed {l} key h) = consume-IsSound n x key l (sound n x l h)
sound n x _ (finished {l} key h) = finish-IsSound n x key l (sound n x l h)

-- A set lies in another one when each of its elements does.
all_of_each :
    (outer inner : List Bytes)
    → ((key : Bytes) → contains key inner ≡ true → contains key outer ≡ true)
    → all (λ key. contains key outer) inner ≡ true
all_of_each outer [] each = refl
all_of_each outer (k ∷ inner) each =
    let first : contains k outer ≡ true = each k (rw (same_bytes_refl k) refl) in
    rw first (all_of_each outer inner (λ key c. each key (rw c (ground arith))))

-- In every state that the life cycle reaches, at most as many requests are active as there is room
-- for, and every request that is marked as cancelled is active.
pub cancelled-Reached :
    (n : ℕ) (l : RequestLifecycle)
    → Reached n l
    → (length l.active ≤ n) × (all (λ key. contains key l.active) l.cancelled ≡ true)
cancelled-Reached n l h =
    ((sound n [] l h).few, all_of_each l.active l.cancelled (λ key. (sound n key l h).active_if))
