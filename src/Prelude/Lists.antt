-- ===== src/Prelude/Lists.antt =====
-- Lists measured by native numbers, predicates on all members, and dictionaries in insertion order.
use Prim.Native.Nat.{ℕ, suc, ◌+◌}
use Prim.Native.String.{String}
use mathlib.Core.Path.{◌≡◌, refl, ap, subst, ◌∙◌}
use mathlib.Core.Bool.{Bool, true, false, ◌&&◌, ◌||◌}
use mathlib.Core.Option.{Option, none, some}
use mathlib.Core.List.{List, [], ◌∷◌, ◌++◌, append_assoc}
use native.Mathlib.Omega.{arith}
use text.Mathlib.Text.{◌==◌}
use text.Mathlib.TextEquality.{eq_iff}
use tengen.Prelude.Tests.{if◌then◌else◌}

module _ {ℓ} {A : Type ℓ} where
  abbrev pub length : List A → ℕ
  length [] = 0
  length (x ∷ xs) = suc (length xs)

  abbrev pub all : (A → Bool) → List A → Bool
  all p [] = true
  all p (x ∷ xs) = p x && all p xs

  abbrev pub any : (A → Bool) → List A → Bool
  any p [] = false
  any p (x ∷ xs) = p x || any p xs

  pub length-append : (xs ys : List A) → length (xs ++ ys) ≡ length xs + length ys
  length-append [] ys = omega arith
  length-append (x ∷ xs) ys = omega (arith, length-append xs ys)

module _ {ℓ κ} {A : Type ℓ} (P : A → Type κ) where
  abbrev pub All : List A → Type κ
  All [] = Unit
  All (x ∷ xs) = P x × All xs

  pub All-append : (xs ys : List A) → All xs → All ys → All (xs ++ ys)
  All-append [] ys _ k = k
  All-append (x ∷ xs) ys (p, h) k = (p, All-append xs ys h k)

module _ {ℓ κ μ} {A : Type ℓ} {P : A → Type κ} {Q : A → Type μ} where
  pub All-map : ((a : A) → P a → Q a) → (xs : List A) → All P xs → All Q xs
  All-map f [] h = tt
  All-map f (x ∷ xs) (p, h) = (f x p, All-map f xs h)

-- A member, with what stands before and after it
abbrev pub IsIn {ℓ} : {A : Type ℓ} → A → List A → Type ℓ
IsIn {A} x xs = (before : List A) × (after : List A) × (xs ≡ before ++ x ∷ after)

pub IsIn-append {ℓ} : {A : Type ℓ} (x : A) (xs ys : List A) → IsIn x xs → IsIn x (xs ++ ys)
IsIn-append x xs ys (before, after, h) =
    (before, after ++ ys, ap (λ l. l ++ ys) h ∙ append_assoc before (x ∷ after) ys)

pub IsIn-last {ℓ} : {A : Type ℓ} (x : A) (xs : List A) → IsIn x (xs ++ x ∷ [])
IsIn-last x xs = (xs, [], refl)

module _ {ℓ κ} {A : Type ℓ} (P : A → Type κ) where
  All-middle : (x : A) (before after : List A) → All P (before ++ x ∷ after) → P x
  All-middle x [] after (p, h) = p
  All-middle x (y ∷ before) after (p, h) = All-middle x before after h

  pub All-IsIn : (x : A) (xs : List A) → All P xs → IsIn x xs → P x
  All-IsIn x xs h (before, after, e) = All-middle x before after (subst (λ l. All P l) e h)

-- `s in xs` on a list or tuple of texts.
abbrev pub one_of : String → List String → Bool
one_of s [] = false
one_of s (x ∷ xs) = x == s || one_of s xs

-- A `dict` with text keys, in insertion order.
abbrev pub Dict {ℓ} : Type ℓ → Type ℓ
Dict V = List (String × V)

module _ {ℓ} {V : Type ℓ} where
  -- `d.get(k)`
  unfoldable pub lookup : String → Dict V → Option V
  lookup k [] = none
  lookup k ((j, v) ∷ d) = if j == k then some v else lookup k d

  -- `d[k] = v`: a key keeps its place, a new key comes last.
  unfoldable pub insert : String → V → Dict V → Dict V
  insert k v [] = (k, v) ∷ []
  insert k v ((j, w) ∷ d) = if j == k then (j, v) ∷ d else (j, w) ∷ insert k v d

  pub lookup-insert :
      (k j : String) (v : V) (d : Dict V)
      → lookup j (insert k v d) ≡ (if k == j then some v else lookup j d)
  unfolding lookup insert
  lookup-insert k j v [] = refl
  lookup-insert k j v ((i, w) ∷ d) =
      ground (arith, eq_iff k j, eq_iff i k, eq_iff i j, lookup-insert k j v d)

  -- No key of the dictionary is `k`.
  abbrev pub IsFresh : String → Dict V → Type 0
  IsFresh k [] = Unit
  IsFresh k ((j, _) ∷ d) = ((j == k) ≡ false) × IsFresh k d

  -- The keys are distinct, as a `dict`'s are.
  abbrev pub HasDistinctKeys : Dict V → Type 0
  HasDistinctKeys [] = Unit
  HasDistinctKeys ((k, _) ∷ d) = IsFresh k d × HasDistinctKeys d

  pub insert_fresh :
      (k : String) (v : V) (d : Dict V) → IsFresh k d → insert k v d ≡ d ++ (k, v) ∷ []
  unfolding insert
  insert_fresh k v [] h = refl
  insert_fresh k v ((j, w) ∷ d) (p, h) = ground (arith, insert_fresh k v d h)

  pub lookup_fresh : (k : String) (d : Dict V) → IsFresh k d → lookup k d ≡ none
  unfolding lookup
  lookup_fresh k [] h = refl
  lookup_fresh k ((j, w) ∷ d) (p, h) = ground (arith, lookup_fresh k d h)

  IsFresh-insert :
      (i k : String) (v : V) (d : Dict V)
      → (k == i) ≡ false
      → IsFresh i d
      → IsFresh i (insert k v d)
  unfolding insert
  IsFresh-insert i k v [] p h = (p, tt)
  IsFresh-insert i k v ((j, w) ∷ d) p (q, h) = ground (arith, IsFresh-insert i k v d p h)

  pub HasDistinctKeys-insert :
      (k : String) (v : V) (d : Dict V) → HasDistinctKeys d → HasDistinctKeys (insert k v d)
  unfolding insert
  HasDistinctKeys-insert k v [] h = (tt, tt)
  HasDistinctKeys-insert k v ((j, w) ∷ d) (p, h) =
      ground (arith, eq_iff k j, eq_iff j k, IsFresh-insert j k v d, HasDistinctKeys-insert k v d h)
