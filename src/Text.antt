-- ===== src/Text.antt =====
-- The methods of `str` that the program calls: `startswith`, `endswith`, `in`, `lower`, `split`,
-- `replace`. They walk a text by its characters, so that they run on any text.
pub mod Laws
use tengen.Prelude.{
  ℕ, zero, suc, ◌+◌, ◌-◌, ◌*◌, ◌/◌, ◌%◌, ◌≤◌, ◌<◌, String, Bool, true, false, not, ◌&&◌, ◌||◌,
  Option, none, some, List, [], ◌∷◌, ◌++◌, ◌≡◌, ◌≢◌, refl, sym, ap, ◌∙◌, ◌⊎◌, inl, inr, ◌↔◌, Result,
  ok, raised, Done, ◌>>=◌, if◌then◌else◌, ◌==◌, eq_iff, arith, map, append-nil, append_assoc,
  is_some, get_or, length, all, any, All, Dict, lookup, insert, eqb, ltb, leb, one_of, Bool-cases,
  Option-cases, type_error, attribute_error, key_error, index_error, value_error, runtime_error,
  is_ok, value_or, some-injective, ok-injective,
}
use Prim.Native.Char.{Char, code}
use Prim.Native.String
use Prim.Native.String.{char_at}

-- `s + t`
abbrev pub cat : String → String → String
cat s t = String.◌++◌ s t

-- `s.startswith(t)`
unfoldable pub begins : String → String → Bool
begins s String.[] = true
begins String.[] (String.◌∷◌ d t) = false
begins (String.◌∷◌ c s) (String.◌∷◌ d t) = eqb (code c) (code d) && begins s t

-- `t in s`
unfoldable pub contains : String → String → Bool
unfolding begins
contains String.[] t = begins "" t
contains (String.◌∷◌ c s) t = begins (String.◌∷◌ c s) t || contains s t

-- `s.endswith(t)`
unfoldable pub ends_with : String → String → Bool
ends_with String.[] t = String.[] == t
ends_with (String.◌∷◌ c s) t = String.◌∷◌ c s == t || ends_with s t

-- `s.lower()`. U+0130 and U+212A are the two characters outside ASCII whose lower case has a letter
-- of ASCII; the others are left as they are, and the program compares with ASCII only.
abbrev lower_code : ℕ → Char → String → String
lower_code n c rest =
    if leb 65 n && leb n 90
    then String.◌∷◌ (char_at "abcdefghijklmnopqrstuvwxyz" (n - 65)) rest
    else if eqb n 0x212a
    then String.◌∷◌ (char_at "k" 0) rest
    else if eqb n 0x130
    then String.◌++◌ "i̇" rest
    else String.◌∷◌ c rest

unfoldable pub lower : String → String
lower String.[] = ""
lower (String.◌∷◌ c s) = lower_code (code c) c (lower s)

-- `s.split(sep)` for a separator of one character: `cur` is the part that is being read.
unfoldable pub split_from : ℕ → String → String → List String
split_from sep cur String.[] = cur ∷ []
split_from sep cur (String.◌∷◌ c s) =
    let closed = cur ∷ split_from sep "" s in
    let longer = split_from sep (String.◌++◌ cur (String.◌∷◌ c "")) s in
    if eqb (code c) sep then closed else longer

unfoldable pub split : ℕ → String → List String
unfolding split_from
split sep s = split_from sep "" s

-- `parts[-1]` of a list that is not empty.
unfoldable pub last_part : String → List String → String
last_part d [] = d
last_part d (p ∷ ps) = last_part p ps

-- `sep.join(parts)`
unfoldable pub join : String → List String → String
join sep [] = ""
join sep (p ∷ []) = p
join sep (p ∷ q ∷ ps) = cat p (cat sep (join sep (q ∷ ps)))

-- `s.replace(x, "")` for a text of one or two characters.
unfoldable pub drop_char : ℕ → String → String
drop_char n String.[] = ""
drop_char n (String.◌∷◌ c s) =
    let rest = drop_char n s in if eqb (code c) n then rest else String.◌∷◌ c rest

unfoldable pub drop_brackets : String → String
drop_brackets String.[] = ""
drop_brackets (String.◌∷◌ c String.[]) = String.◌∷◌ c ""
drop_brackets (String.◌∷◌ c (String.◌∷◌ d s)) =
    let closed = drop_brackets s in
    let other = String.◌∷◌ c (drop_brackets (String.◌∷◌ d s)) in
    if eqb (code c) 91 && eqb (code d) 93 then closed else other

lower_runs : lower "Azure-İD" ≡ "azure-i̇d"
unfolding lower
lower_runs = refl

split_runs : split 46 "a..b" ≡ "a" ∷ "" ∷ "b" ∷ []
unfolding split
split_runs = refl

contains_runs : contains "audit.k8s.io/v1" "k8s" ≡ true
unfolding contains
contains_runs = refl

ends_with_runs : ends_with "s3.amazonaws.com" ".amazonaws.com" ≡ true
unfolding ends_with
ends_with_runs = refl

drop_brackets_runs : drop_brackets "ips[][x]" ≡ "ips[x]"
unfolding drop_brackets
drop_brackets_runs = refl

-- `s[:n]`, by characters
unfoldable pub take_chars : ℕ → String → String
take_chars zero s = ""
take_chars (suc n) String.[] = ""
take_chars (suc n) (String.◌∷◌ c s) = String.◌∷◌ c (take_chars n s)

-- The characters that `strip` takes off
abbrev is_space : ℕ → Bool
is_space n =
    leb 9 n && leb n 13
    || leb 28 n && leb n 32
    || eqb n 0x85
    || eqb n 0xa0
    || eqb n 0x1680
    || leb 0x2000 n && leb n 0x200a
    || eqb n 0x2028
    || eqb n 0x2029
    || eqb n 0x202f
    || eqb n 0x205f
    || eqb n 0x3000

unfoldable pub strip_left : String → String
strip_left String.[] = ""
strip_left (String.◌∷◌ c s) =
    let rest = strip_left s in if is_space (code c) then rest else String.◌∷◌ c s

-- A character before a text whose trailing spaces are off
abbrev pub before_stripped : ℕ → Char → String → String
before_stripped n c String.[] = if is_space n then "" else String.◌∷◌ c ""
before_stripped n c (String.◌∷◌ d s) = String.◌∷◌ c (String.◌∷◌ d s)

unfoldable pub strip_right : String → String
strip_right String.[] = ""
strip_right (String.◌∷◌ c s) = before_stripped (code c) c (strip_right s)

-- `s.strip()`
unfoldable pub strip : String → String
unfolding strip_left strip_right
strip s = strip_right (strip_left s)

-- `s[:-1]`
unfoldable pub but_last : String → String
but_last String.[] = ""
but_last (String.◌∷◌ c String.[]) = ""
but_last (String.◌∷◌ c (String.◌∷◌ d s)) = String.◌∷◌ c (but_last (String.◌∷◌ d s))

strip_runs : strip " a b\n" ≡ "a b"
unfolding strip
strip_runs = refl

-- `s.upper()`. Outside ASCII, these are the characters whose upper case is of letters of ASCII only;
-- the others are left as they are, and the program compares with ASCII only.
abbrev upper_table : List (ℕ × String)
upper_table =
    (0xdf, "SS")
    ∷ (0x131, "I")
    ∷ (0x17f, "S")
    ∷ (0xfb00, "FF")
    ∷ (0xfb01, "FI")
    ∷ (0xfb02, "FL")
    ∷ (0xfb03, "FFI")
    ∷ (0xfb04, "FFL")
    ∷ (0xfb05, "ST")
    ∷ (0xfb06, "ST")
    ∷ []

abbrev entry_or : ℕ → List (ℕ × String) → String → String
entry_or n [] s = s
entry_or n ((m, t) ∷ rest) s = if eqb m n then t else entry_or n rest s

abbrev upper_code : ℕ → Char → String
upper_code n c =
    if leb 97 n && leb n 122
    then String.◌∷◌ (char_at "ABCDEFGHIJKLMNOPQRSTUVWXYZ" (n - 97)) ""
    else entry_or n upper_table (String.◌∷◌ c "")

unfoldable pub upper : String → String
upper String.[] = ""
upper (String.◌∷◌ c s) = String.◌++◌ (upper_code (code c) c) (upper s)

upper_runs : upper "Crıtical-9" ≡ "CRITICAL-9"
unfolding upper
upper_runs = refl

-- `len(s)`
unfoldable pub text_length : String → ℕ
text_length String.[] = 0
text_length (String.◌∷◌ c s) = suc (text_length s)

-- `s.partition(sep)` for a separator of one character, less the separator itself
abbrev pub before : Char → String × String → String × String
before c (s, t) = (String.◌∷◌ c s, t)

unfoldable pub partition : ℕ → String → String × String
partition sep String.[] = ("", "")
partition sep (String.◌∷◌ c s) =
    let later = before c (partition sep s) in if eqb (code c) sep then ("", s) else later

partition_runs : partition 58 "dlq:a:b" ≡ ("dlq", "a:b")
unfolding partition
partition_runs = refl
