-- ===== src/Metrics/Store/Keys.antt =====
-- The keys of a Python dictionary: a value can be hashed unless it is a dictionary or a list, and
-- numbers are one key when they are equal, of whatever type they are.
use tengen.Prelude.{
  ℕ, zero, suc, ◌+◌, ◌-◌, ◌/◌, ◌%◌, String, Bool, true, false, ◌&&◌, ◌≡◌, refl, ap, ◌↔◌, Result, ok,
  raised, if◌then◌else◌, ◌==◌, eq_iff, arith, eqb, type_error,
}
use tengen.Value.{Value, ℤ, pos, negsuc, str, bool, int, float, obj, arr, null}

pub data Key : Type 0 where
  named : String → Key
  number : ℤ → ℕ → Key
  nothing : Key

abbrev is_even : ℕ → Bool
is_even n = eqb (n % 2) 0

-- The number m / 2 ^ k in lowest terms
unfoldable pub lowest : ℤ → ℕ → Key
lowest z zero = number z 0
lowest (pos n) (suc k) =
    let halved = lowest (pos (n / 2)) k in if is_even n then halved else number (pos n) (suc k)
lowest (negsuc n) (suc k) =
    let halved = lowest (negsuc ((n + 1) / 2 - 1)) k in
    if is_even (n + 1) then halved else number (negsuc n) (suc k)

unfoldable pub key_of : Value → Result Key
unfolding lowest
key_of (str s) = ok (named s)
key_of (bool true) = ok (number (pos 1) 0)
key_of (bool false) = ok (number (pos 0) 0)
key_of (int z) = ok (number z 0)
key_of (float z k) = ok (lowest z k)
key_of null = ok nothing
key_of (obj fs) = raised type_error
key_of (arr vs) = raised type_error

abbrev same_int : ℤ → ℤ → Bool
same_int (pos m) (pos n) = eqb m n
same_int (negsuc m) (negsuc n) = eqb m n
same_int _ _ = false

abbrev pub same : Key → Key → Bool
same (named s) (named t) = s == t
same (number y j) (number z k) = same_int y z && eqb j k
same nothing nothing = true
same _ _ = false

-- Whether a value is found under the key
abbrev pub is_under : Key → Result Key → Bool
is_under k (ok j) = same k j
is_under k (raised e) = false

unfoldable pub is_key : Key → Value → Bool
unfolding key_of
is_key k v = is_under k (key_of v)

same_int_iff : (y z : ℤ) → (same_int y z ≡ true) ↔ (y ≡ z)
same_int_iff (pos m) (pos n) = ground arith
same_int_iff (negsuc m) (negsuc n) = ground arith
same_int_iff (pos m) (negsuc n) = ground arith
same_int_iff (negsuc m) (pos n) = ground arith

-- Two keys are found under each other only when they are one.
pub same_iff : (j k : Key) → (same j k ≡ true) ↔ (j ≡ k)
same_iff (named s) (named t) = ground (arith, eq_iff s t)
same_iff (named s) (number z k) = ground arith
same_iff (named s) nothing = ground arith
same_iff (number y j) (named t) = ground arith
same_iff (number y j) (number z k) = ground (arith, same_int_iff y z)
same_iff (number y j) nothing = ground arith
same_iff nothing (named t) = ground arith
same_iff nothing (number z k) = ground arith
same_iff nothing nothing = ground arith

pub is_key-key_of : (j k : Key) (v : Value) → key_of v ≡ ok k → is_key j v ≡ same j k
unfolding is_key
is_key-key_of j k v h = ap (is_under j) h

under-same : (j k : Key) (r : Result Key) → is_under k r ≡ true → is_under j r ≡ same j k
under-same j k (ok i) h = ground (arith, same_iff k i)
under-same j k (raised e) h = ground arith

-- A value that is found under a key has no other.
pub is_key-same : (j k : Key) (v : Value) → is_key k v ≡ true → is_key j v ≡ same j k
unfolding is_key
is_key-same j k v h = under-same j k (key_of v) h

pub is_key-named : (s t : String) → is_key (named s) (str t) ≡ (t == s)
unfolding is_key key_of
is_key-named s t = ground (arith, eq_iff s t, eq_iff t s)

pub key_of-str : (s : String) → key_of (str s) ≡ ok (named s)
unfolding key_of
key_of-str s = refl

pub same-named : (s t : String) → same (named s) (named t) ≡ (t == s)
same-named s t = ground (arith, eq_iff s t, eq_iff t s)
