-- ===== src/Normalizers/Reading.antt =====
-- The operations of Python that the normalizers apply to the values of a payload.

use tengen.Prelude.{
  ℕ, zero, suc, ◌*◌, ◌/◌, ◌^◌, String, Bool, true, false, List, Result, ok, raised, type_error,
  index_error, key_error, if◌then◌else◌, leb, ltb, not,
}
use tengen.Value.{
  Value, ℤ, pos, negsuc, str, bool, int, float, obj, arr, item, no_items, truthy, is_one_of,
  is_zero,
}

-- The rest of a block runs when the call before it has returned.
infixl 10 ◌>>=◌
unfoldable pub ◌>>=◌ {κ μ} : {V : Type κ} {W : Type μ} → Result V → (V → Result W) → Result W
raised e >>= next = raised e
ok v >>= next = next v

-- `v[0]`. The keys of a JSON object are texts.
unfoldable pub first_of : Value → Result Value
first_of (arr no_items) = raised index_error
first_of (arr (item v vs)) = ok v
first_of (str String.[]) = raised index_error
first_of (str (String.◌∷◌ c s)) = ok (str (String.◌∷◌ c ""))
first_of (obj fs) = raised key_error
first_of _ = raised type_error

-- `v[0] if v else default`
abbrev pub first_or : Value → Value → Result Value
first_or default v = if truthy v then first_of v else ok default

-- `v in {"…", "…"}`, which hashes `v`
unfoldable pub in_set : Value → List String → Result Bool
in_set (obj fs) ts = raised type_error
in_set (arr vs) ts = raised type_error
in_set v ts = ok (is_one_of v ts)

-- `v != 0`
unfoldable pub is_nonzero : Value → Bool
is_nonzero (int z) = not (is_zero z)
is_nonzero (float z k) = not (is_zero z)
is_nonzero (bool b) = b
is_nonzero _ = true

-- No integer below 0 is at least `n`. `z / 2 ^ k >= n` and `z / 2 ^ k > n`, and the number that a truth value is
abbrev pub z_at_least : ℕ → ℕ → ℤ → Bool
z_at_least n k (pos m) = leb (n * 2 ^ k) m
z_at_least n k (negsuc m) = false

abbrev pub z_above : ℕ → ℕ → ℤ → Bool
z_above n k (pos m) = ltb (n * 2 ^ k) m
z_above n k (negsuc m) = false

abbrev pub bit : Bool → ℤ
bit true = pos 1
bit false = pos 0

-- `v >= n`
unfoldable pub at_least : ℕ → Value → Result Bool
at_least n (int z) = ok (z_at_least n 0 z)
at_least n (float z k) = ok (z_at_least n k z)
at_least n (bool b) = ok (z_at_least n 0 (bit b))
at_least n _ = raised type_error

-- `v > n`
unfoldable pub above : ℕ → Value → Result Bool
above n (int z) = ok (z_above n 0 z)
above n (float z k) = ok (z_above n k z)
above n (bool b) = ok (z_above n 0 (bit b))
above n _ = raised type_error

abbrev pub negate : ℕ → ℤ
negate zero = pos 0
negate (suc n) = negsuc n

abbrev pub truncated : ℤ → ℕ → ℤ
truncated (pos m) k = pos (m / 2 ^ k)
truncated (negsuc m) k = negate (suc m / 2 ^ k)

-- `int(v)`, where `int_of_text` reads a text
unfoldable pub to_int : (String → Result ℤ) → Value → Result ℤ
to_int int_of_text (int z) = ok z
to_int int_of_text (float z k) = ok (truncated z k)
to_int int_of_text (bool b) = ok (bit b)
to_int int_of_text (str s) = int_of_text s
to_int int_of_text _ = raised type_error
