-- ===== src/Prelude/Outcomes.antt =====
-- The exceptions of Python that the program can meet, and calls that return or raise.
use mathlib.Core.Path.{◌≡◌, ap}
use mathlib.Core.Bool.{Bool, true, false}

pub data Error : Type 0 where
  attribute_error type_error key_error index_error value_error runtime_error : Error

-- What a call comes to: an exception that leaves it, or a value.
pub data Result {κ} (V : Type κ) : Type κ where
  raised : Error → Result V
  ok : V → Result V

-- The rest of a block runs when the call before it has returned.
infixl 10 ◌>>=◌
abbrev pub ◌>>=◌ {κ μ} : {V : Type κ} {W : Type μ} → Result V → (V → Result W) → Result W
raised e >>= next = raised e
ok v >>= next = next v

-- The value of a call that did not raise.
abbrev pub value_or {ℓ} : {A : Type ℓ} → A → Result A → A
value_or d (ok a) = a
value_or d (raised e) = d

pub ok-injective {ℓ} : {A : Type ℓ} {a b : A} → ok a ≡ ok b → a ≡ b
ok-injective {a} h = ap (value_or a) h

-- Whether a call raised.
abbrev pub is_ok {ℓ} : {A : Type ℓ} → Result A → Bool
is_ok (ok _) = true
is_ok (raised _) = false

-- What a call that returns `None` comes to
abbrev pub Done : Type 0
Done = Result (Unit {0})
