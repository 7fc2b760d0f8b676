-- ===== src/Text/Laws.antt =====
-- Laws of the tests on texts.
use tengen.Prelude.{
  ℕ, zero, suc, ◌-◌, ◌<◌, String, Bool, true, false, not, ◌&&◌, ◌||◌, ◌≡◌, refl, ap, ◌∙◌, inl, inr,
  if◌then◌else◌, eq_iff, arith, eqb, leb, Bool-cases, eqb_iff,
}
use Prim.Native.Char.{code}
use Prim.Native.String
use text.Mathlib.TextLemmas.{cons-append, nil-append}
use tengen.Text.{begins, contains, ends_with, partition, code, cat, lower}
use Prim.Native.String.{char_at}

pub begins_self : (s : String) → begins s s ≡ true
unfolding begins
begins_self String.[] = refl
begins_self (String.◌∷◌ c s) = ground (arith, begins_self s)

pub begins-append : (s t : String) → begins (String.◌++◌ s t) s ≡ true
unfolding begins
begins-append String.[] t = refl
begins-append (String.◌∷◌ c s) t = rw cons-append (ground (arith, begins-append s t))

begins_trans : (s t u : String) → begins s t ≡ true → begins t u ≡ true → begins s u ≡ true
unfolding begins
begins_trans s t String.[] h k = refl
begins_trans s String.[] (String.◌∷◌ d u) h k = cc
begins_trans String.[] (String.◌∷◌ c t) (String.◌∷◌ d u) h k = cc
begins_trans (String.◌∷◌ b s) (String.◌∷◌ c t) (String.◌∷◌ d u) h k =
    ground (arith, begins_trans s t u)

pub ends_with-contains : (s t : String) → ends_with s t ≡ true → contains s t ≡ true
unfolding ends_with contains
ends_with-contains String.[] t h = ground (arith, eq_iff "" t, begins_self t)
ends_with-contains (String.◌∷◌ c s) t h =
    ground (arith, eq_iff (String.◌∷◌ c s) t, begins_self t, ends_with-contains s t)

-- A text that holds `t` holds what `t` begins with.
pub contains_trans :
    (s t u : String) → contains s t ≡ true → begins t u ≡ true → contains s u ≡ true
unfolding contains
contains_trans String.[] t u h k = begins_trans "" t u h k
contains_trans (String.◌∷◌ c s) t u h k =
    ground (arith, begins_trans (String.◌∷◌ c s) t u, contains_trans s t u)

-- Whether a text holds a character
abbrev pub has_char : ℕ → String → Bool
has_char n String.[] = false
has_char n (String.◌∷◌ c s) = eqb (code c) n || has_char n s

head_free : (x y : Bool) → (x || y) ≡ false → x ≡ false
head_free x y h = ground arith

-- A text is parted at the first separator.
pub partition-append :
    (s t : String) → has_char 58 s ≡ false → partition 58 (cat s (cat ":" t)) ≡ (s, t)
unfolding partition
partition-append String.[] t h = rw (nil-append, cons-append, nil-append) refl
partition-append (String.◌∷◌ c s) t h =
    rw
      (
        cons-append,
        head_free (eqb (code c) 58) (has_char 58 s) h,
        partition-append s t (ground arith),
      )
      refl

begins-has_char :
    (n : ℕ) (s t : String) → begins s t ≡ true → has_char n s ≡ false → has_char n t ≡ false
unfolding begins
begins-has_char n s String.[] h k = refl
begins-has_char n String.[] (String.◌∷◌ d t) h k = ground arith
begins-has_char n (String.◌∷◌ c s) (String.◌∷◌ d t) h k = ground (arith, begins-has_char n s t)

-- What a text holds has no character that the text does not have.
pub contains-has_char :
    (n : ℕ) (s t : String) → contains s t ≡ true → has_char n s ≡ false → has_char n t ≡ false
unfolding contains
contains-has_char n String.[] t h k = begins-has_char n "" t h k
contains-has_char n (String.◌∷◌ c s) t h k =
    ground (arith, begins-has_char n (String.◌∷◌ c s) t, contains-has_char n s t)

has_char-append : (n : ℕ) (s t : String) → has_char n (cat s t) ≡ (has_char n s || has_char n t)
has_char-append n String.[] t = rw nil-append refl
has_char-append n (String.◌∷◌ c s) t = rw (cons-append, has_char-append n s t) (ground arith)

abbrev all_below : (ℕ → Bool) → ℕ → Bool
all_below p zero = true
all_below p (suc n) = p n && all_below p n

all_below-lt : (p : ℕ → Bool) (n k : ℕ) → all_below p n ≡ true → k < n → p k ≡ true
all_below-lt p zero k h l = ground arith
all_below-lt p (suc n) k h l = elim (Bool-cases (eqb k n)) [
  | inl e ↦ ap p ((eqb_iff k n).0 e) ∙ ground arith
  | inr e ↦ all_below-lt p n k (ground arith) (ground arith)
]

-- No small letter is a P.
small-letters :
    (k : ℕ) → k < 26 → not (eqb (code (char_at "abcdefghijklmnopqrstuvwxyz" k)) 80) ≡ true
small-letters k l =
    all_below-lt (λ k. not (eqb (code (char_at "abcdefghijklmnopqrstuvwxyz" k)) 80)) 26 k refl l

has_char-if :
    (n : ℕ) (b : Bool) (s t : String)
    → has_char n s ≡ false
    → has_char n t ≡ false
    → has_char n (if b then s else t) ≡ false
has_char-if n true s t h k = h
has_char-if n false s t h k = k

-- A text in lower case has no P.
pub lower-has_char : (s : String) → has_char 80 (lower s) ≡ false
unfolding lower
lower-has_char String.[] = refl
lower-has_char (String.◌∷◌ c s) = elim (Bool-cases (leb 65 (code c) && leb (code c) 90)) [
  | inl e ↦ rw e (ground (arith, small-letters (code c - 65) (ground arith), lower-has_char s))
  | inr e ↦ rw e (
      has_char-if 80 (eqb (code c) 0x212a) _ _ (lower-has_char s) (
        has_char-if 80 (eqb (code c) 0x130) _ _
          (has_char-append 80 "i̇" (lower s) ∙ lower-has_char s)
          (ground (arith, lower-has_char s))))
]
