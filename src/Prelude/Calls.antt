-- ===== src/Prelude/Calls.antt =====
-- Handlers as functions of the state that return or fail: the monad, the rules of an invariant, and
-- the postcondition of a handler that returns.
use mathlib.Core.Bool.{Bool, true, false}
use relay_term.Prelude.Tests.{if◌then◌else◌}

pub data Result (E A : Type 0) : Type 0 where
  ok : A → Result E A
  err : E → Result E A

abbrev pub Calls : Type 0 → Type 0 → Type 0 → Type 0
Calls S E A = S → Result E A × S

module _ {S E : Type 0} where
  unfoldable pub pure : {A : Type 0} → A → Calls S E A
  pure a s = (ok a, s)

  unfoldable pub fail : {A : Type 0} → E → Calls S E A
  fail e s = (err e, s)

  unfoldable pub after : {A B : Type 0} → Result E A → (A → Calls S E B) → Calls S E B
  after (ok a) f s = f a s
  after (err e) f s = (err e, s)

  unfoldable pub read : {A : Type 0} → (S → A) → Calls S E A
  read f s = (ok (f s), s)

  unfoldable pub update : (S → S) → Calls S E (Unit {0})
  update f s = (ok tt, f s)

infixl 5 ◌>>=◌ ◌>>◌
unfoldable pub ◌>>=◌ : {S E A B : Type 0} → Calls S E A → (A → Calls S E B) → Calls S E B
◌>>=◌ c f s = after (c s).0 f (c s).1

abbrev pub ◌>>◌ : {S E B : Type 0} → Calls S E (Unit {0}) → Calls S E B → Calls S E B
◌>>◌ c d = c >>= λ _. d

-- `match c { ... }`: the next step sees the result of the call, error or not.
unfoldable pub settle :
    {S E F A B : Type 0} → Calls S E A → (Result E A → Calls S F B) → Calls S F B
settle c f s = f (c s).0 (c s).1

-- `?` through a `From` on errors.
unfoldable pub returned : {S E F A : Type 0} → (E → F) → Result E A → Calls S F A
returned f (ok a) s = (ok a, s)
returned f (err e) s = (err (f e), s)

abbrev pub map_err : {S E F A : Type 0} → (E → F) → Calls S E A → Calls S F A
map_err f c = settle c (returned f)

-- The result is looked at by nobody.
abbrev pub ignore_error : {S E F A : Type 0} → Calls S E A → Calls S F (Unit {0})
ignore_error c = settle c (λ _. pure tt)

-- The call keeps `P`, whether it returns or fails.
pub record Keeps {S E A : Type 0} (P : S → Type 0) (c : Calls S E A) : Type 0 where
  pub at : (s : S) → P s → P (c s).1

module _ {S E : Type 0} {P : S → Type 0} where
  module _ {A : Type 0} where
    pub Keeps-pure : (a : A) → Keeps P (pure {E = E} a)
    unfolding pure
    Keeps-pure a = record { at = λ s h. h }

    pub Keeps-fail : (e : E) → Keeps P (fail {A = A} e)
    unfolding fail
    Keeps-fail e = record { at = λ s h. h }

    pub Keeps-read : (f : S → A) → Keeps P (read {E = E} f)
    unfolding read
    Keeps-read f = record { at = λ s h. h }

    pub Keeps-if :
        (b : Bool) (c d : Calls S E A) → Keeps P c → Keeps P d → Keeps P (if b then c else d)
    Keeps-if true c d kc kd = kc
    Keeps-if false c d kc kd = kd

  pub Keeps-update : (f : S → S) → ((s : S) → P s → P (f s)) → Keeps P (update {E = E} f)
  unfolding update
  Keeps-update f h = record { at = h }

  module _ {A B : Type 0} where
    Keeps-after :
        (r : Result E A) (f : A → Calls S E B) (s : S)
        → ((a : A) → Keeps P (f a))
        → P s
        → P (after r f s).1
    unfolding after
    Keeps-after (ok a) f s kf h = (kf a).at s h
    Keeps-after (err e) f s kf h = h

    pub Keeps-bind :
        (c : Calls S E A) (f : A → Calls S E B)
        → Keeps P c
        → ((a : A) → Keeps P (f a))
        → Keeps P (c >>= f)
    unfolding ◌>>=◌
    Keeps-bind c f kc kf = record { at = λ s h. Keeps-after (c s).0 f _ kf (kc.at s h) }

module _ {S E F A B : Type 0} {P : S → Type 0} where
  pub Keeps-settle :
      (c : Calls S E A) (f : Result E A → Calls S F B)
      → Keeps P c
      → ((r : Result E A) → Keeps P (f r))
      → Keeps P (settle c f)
  unfolding settle
  Keeps-settle c f kc kf = record { at = λ s h. (kf (c s).0).at _ (kc.at s h) }

module _ {S E F A : Type 0} {P : S → Type 0} where
  pub Keeps-returned : (f : E → F) (r : Result E A) → Keeps P (returned {S = S} f r)
  unfolding returned
  Keeps-returned f (ok a) = record { at = λ s h. h }
  Keeps-returned f (err e) = record { at = λ s h. h }

-- What holds of a result that is not an error.
abbrev pub On : {E A : Type 0} → Result E A → (A → Type 0) → Type 0
On (ok a) P = P a
On (err e) P = Unit

-- `P` holds of what the call returns and of the state that it leaves, if it returns.
abbrev pub Yields : {S E A : Type 0} → (A → S → Type 0) → Result E A × S → Type 0
Yields P r = On r.0 (λ a. P a r.1)

module _ {S E A B : Type 0} where
  Yields-after :
      (P : B → S → Type 0) (r : Result E A) (f : A → Calls S E B) (s : S)
      → On r (λ a. Yields P (f a s))
      → Yields P (after r f s)
  unfolding after
  Yields-after P (ok a) f s h = h
  Yields-after P (err e) f s h = tt

  pub Yields-bind :
      (P : B → S → Type 0) (c : Calls S E A) (f : A → Calls S E B) (s : S)
      → Yields (λ a t. Yields P (f a t)) (c s)
      → Yields P ((c >>= f) s)
  unfolding ◌>>=◌
  Yields-bind P c f s h = Yields-after P (c s).0 f (c s).1 h

pub ruleset keeps_rules =
    (Keeps-pure, Keeps-fail, Keeps-read, Keeps-if, Keeps-bind, Keeps-settle, Keeps-returned)

module _ {E A : Type 0} where
  pub On-always : (P : A → Type 0) (r : Result E A) → ((a : A) → P a) → On r P
  On-always P (ok a) h = h a
  On-always P (err e) h = tt

  pub On-implies : (P Q : A → Type 0) (r : Result E A) → ((a : A) → P a → Q a) → On r P → On r Q
  On-implies P Q (ok a) f h = f a h
  On-implies P Q (err e) f h = tt

module _ {S E F A : Type 0} where
  Yields-returned :
      (P : A → S → Type 0) (f : E → F) (r : Result E A) (s : S)
      → On r (λ a. P a s)
      → Yields P (returned f r s)
  unfolding returned
  Yields-returned P f (ok a) s h = h
  Yields-returned P f (err e) s h = tt

  pub Yields-map_err :
      (P : A → S → Type 0) (f : E → F) (c : Calls S E A) (s : S)
      → Yields P (c s)
      → Yields P (map_err f c s)
  unfolding settle
  Yields-map_err P f c s h = Yields-returned P f (c s).0 (c s).1 h

module _ {S E A B : Type 0} where
  -- A middle assertion `Q` between the two calls.
  pub Yields-then :
      (P : B → S → Type 0) (Q : A → S → Type 0) (c : Calls S E A) (f : A → Calls S E B) (s : S)
      → Yields Q (c s)
      → ((a : A) (t : S) → Q a t → Yields P (f a t))
      → Yields P ((c >>= f) s)
  Yields-then P Q c f s h k =
      Yields-bind P c f s
        (On-implies (λ a. Q a (c s).1) (λ a. Yields P (f a (c s).1)) (c s).0 (λ a. k a (c s).1) h)

  -- What is known before the first call is all that is needed.
  pub Yields-any :
      (P : B → S → Type 0) (c : Calls S E A) (f : A → Calls S E B) (s : S)
      → ((a : A) (t : S) → Yields P (f a t))
      → Yields P ((c >>= f) s)
  Yields-any P c f s k =
      Yields-bind P c f s (On-always (λ a. Yields P (f a (c s).1)) (c s).0 (λ a. k a (c s).1))

  -- A call that keeps `K`.
  pub Yields-keep :
      (P : B → S → Type 0) (K : S → Type 0) (c : Calls S E A) (f : A → Calls S E B) (s : S)
      → Keeps K c
      → K s
      → ((a : A) (t : S) → K t → Yields P (f a t))
      → Yields P ((c >>= f) s)
  Yields-keep P K c f s keeps h k =
      Yields-then P (λ _ t. K t) c f s (On-always (λ _. K (c s).1) (c s).0 (λ _. keeps.at s h)) k

module _ {S E F A B : Type 0} where
  settled-Yields :
      (P : B → S → Type 0) (Q : A → S → Type 0) (r : Result E A) (f : Result E A → Calls S F B)
      (s : S)
      → On r (λ a. Q a s)
      → ((a : A) (t : S) → Q a t → Yields P (f (ok a) t))
      → ((e : E) (t : S) → Yields P (f (err e) t))
      → Yields P (f r s)
  settled-Yields P Q (ok a) f s h good bad = good a s h
  settled-Yields P Q (err e) f s h good bad = bad e s

  pub Yields-settle :
      (P : B → S → Type 0) (Q : A → S → Type 0) (c : Calls S E A) (f : Result E A → Calls S F B)
      (s : S)
      → Yields Q (c s)
      → ((a : A) (t : S) → Q a t → Yields P (f (ok a) t))
      → ((e : E) (t : S) → Yields P (f (err e) t))
      → Yields P (settle c f s)
  unfolding settle
  Yields-settle P Q c f s h good bad = settled-Yields P Q (c s).0 f (c s).1 h good bad
