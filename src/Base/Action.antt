-- ===== src/Base/Action.antt =====
-- A method of an object: it may write the state, whether it returns or raises.
use ha_int_gcast.Base.Result.{Result, returned, raised}

abbrev pub Action : Type 0 → Type 0 → Type 0 → Type 0
Action S E A = S → Result E A × S

module _ {S E : Type 0} where
  abbrev pub pure : {A : Type 0} → A → Action S E A
  pure a s = (returned a, s)

  abbrev pub raise : {A : Type 0} → E → Action S E A
  raise e s = (raised e, s)

  abbrev pub read : {A : Type 0} → (S → A) → Action S E A
  read f s = (returned (f s), s)

  abbrev pub write : (S → S) → Action S E (Unit {0})
  write f s = (returned tt, f s)

  -- What a function outside returns or raises
  abbrev pub lift : {A : Type 0} → Result E A → Action S E A
  lift r s = (r, s)

  abbrev pub continue_with : {A B : Type 0} → (A → Action S E B) → Result E A × S → Result E B × S
  continue_with f (returned a, s) = f a s
  continue_with f (raised e, s) = (raised e, s)

  infixl 5 ◌>>=◌ ◌>>◌
  abbrev pub ◌>>=◌ : {A B : Type 0} → Action S E A → (A → Action S E B) → Action S E B
  (m >>= f) s = continue_with f (m s)

  abbrev pub ◌>>◌ : {B : Type 0} → Action S E (Unit {0}) → Action S E B → Action S E B
  m >> k = m >>= λ u. k

  -- `try: m finally: f`, for an `f` that raises nothing
  abbrev pub finish_with : {A : Type 0} → (S → S) → Result E A × S → Result E A × S
  finish_with f (r, s) = (r, f s)

  abbrev pub finally : {A : Type 0} → Action S E A → (S → S) → Action S E A
  finally m f s = finish_with f (m s)

  -- The outcome of `m` as a value: `try: m except …`
  abbrev pub keep : {A : Type 0} → Result E A × S → Result E (Result E A) × S
  keep (r, s) = (returned r, s)

  abbrev pub attempt : {A : Type 0} → Action S E A → Action S E (Result E A)
  attempt m s = keep (m s)
