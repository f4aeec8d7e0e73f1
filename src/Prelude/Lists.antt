-- ===== src/Prelude/Lists.antt =====
-- Lists measured by native numbers, membership tests on texts, and a predicate on all elements.
use Prim.Native.Nat.{ℕ, zero, suc, ◌+◌, ◌≤◌, ◌<◌}
use Prim.Native.String.{String}
use mathlib.Core.Path.{◌≡◌, refl}
use mathlib.Core.Bool.{Bool, true, false, ◌||◌}
use mathlib.Core.Option.{Option, none, some}
use mathlib.Core.List.{List, [], ◌∷◌, ◌++◌, map}
use native.Mathlib.Omega.{arith}
use text.Mathlib.Text.{◌==◌}
use text.Mathlib.TextEquality.{eq_iff}
use text.Mathlib.TextPositions.{eq_refl}
use monti.Prelude.Tests.{if◌then◌else◌}

module _ {ℓ} {A : Type ℓ} where
  abbrev pub length : List A → ℕ
  length [] = 0
  length (x ∷ xs) = suc (length xs)

  pub length-append : (xs ys : List A) → length (xs ++ ys) ≡ length xs + length ys
  length-append [] ys = omega arith
  length-append (x ∷ xs) ys = omega (arith, length-append xs ys)

  -- The elements that pass a test, in order.
  abbrev pub keep : (A → Bool) → List A → List A
  keep p [] = []
  keep p (x ∷ xs) = let rest = keep p xs in if p x then x ∷ rest else rest

  pub keep-append : (p : A → Bool) (xs ys : List A) → keep p (xs ++ ys) ≡ keep p xs ++ keep p ys
  keep-append p [] ys = refl
  keep-append p (x ∷ xs) ys = ground (arith, keep-append p xs ys)

  pub length-keep-le : (p : A → Bool) (xs : List A) → length (keep p xs) ≤ length xs
  length-keep-le p [] = omega arith
  length-keep-le p (x ∷ xs) = ground (arith, length-keep-le p xs)

  pub keep-passes :
      (p : A → Bool) (a : A) (xs before after : List A)
      → keep p xs ≡ before ++ a ∷ after
      → p a ≡ true
  keep-passes p a [] [] after e = absurd (ground arith)
  keep-passes p a [] (b ∷ before) after e = absurd (ground arith)
  keep-passes p a (x ∷ xs) [] after e = ground (arith, keep-passes p a xs [] after)
  keep-passes p a (x ∷ xs) (b ∷ before) after e =
      ground (arith, keep-passes p a xs before after, keep-passes p a xs (b ∷ before) after)

  abbrev pub All {κ} : (A → Type κ) → List A → Type κ
  All P [] = Unit
  All P (x ∷ xs) = P x × All P xs

  pub All-append {κ} : (P : A → Type κ) (xs ys : List A) → All P xs → All P ys → All P (xs ++ ys)
  All-append P [] ys h k = k
  All-append P (x ∷ xs) ys h k = (h.0, All-append P xs ys h.1 k)

  pub All-imp {κ μ} :
      (P : A → Type κ) (Q : A → Type μ)
      → ((a : A) → P a → Q a)
      → (xs : List A) → All P xs
      → All Q xs
  All-imp P Q f [] h = tt
  All-imp P Q f (x ∷ xs) h = (f x h.0, All-imp P Q f xs h.1)

module _ {ℓ} {A : Type ℓ} where
  pub length-map {κ} : {B : Type κ} (f : A → B) (xs : List A) → length (map f xs) ≡ length xs
  length-map f [] = refl
  length-map f (x ∷ xs) = omega (arith, length-map f xs)

abbrev pub member : String → List String → Bool
member s [] = false
member s (x ∷ xs) = x == s || member s xs

abbrev pub Distinct : List String → Type 0
Distinct [] = Unit {0}
Distinct (x ∷ xs) = (member x xs ≡ false) × Distinct xs

pub member-append :
    (s : String) (xs ys : List String) → member s (xs ++ ys) ≡ (member s xs || member s ys)
member-append s [] ys = refl
member-append s (x ∷ xs) ys = ground (arith, member-append s xs ys)

-- A text that is not among the elements may be added at the end.
pub Distinct-snoc :
    (xs : List String) (s : String) → Distinct xs → member s xs ≡ false → Distinct (xs ++ s ∷ [])
Distinct-snoc [] s d h = (refl, tt)
Distinct-snoc (x ∷ xs) s d h = (
  ground (arith, member-append x xs (s ∷ []), eq_iff s x, eq_iff x s),
  Distinct-snoc xs s d.1 (ground arith),
)

pub Distinct-append :
    (xs ys : List String)
    → Distinct xs
    → Distinct ys
    → All (λ x. member x ys ≡ false) xs
    → Distinct (xs ++ ys)
Distinct-append [] ys d e h = e
Distinct-append (x ∷ xs) ys d e h =
    (ground (arith, member-append x xs ys), Distinct-append xs ys d.1 e h.1)

-- xs[i]; `none` is out of range.
abbrev pub get_elem? {ℓ} : {A : Type ℓ} → List A → ℕ → Option A
get_elem? [] i = none
get_elem? (x ∷ xs) zero = some x
get_elem? (x ∷ xs) (suc i) = get_elem? xs i

pub get_elem?-member :
    (xs : List String) (i : ℕ)
    → i < length xs
    → (x : String) × (get_elem? xs i ≡ some x) × (member x xs ≡ true)
get_elem?-member [] i h = absurd (omega arith)
get_elem?-member (x ∷ xs) zero h = (x, refl, rw (eq_refl x) refl)
get_elem?-member (x ∷ xs) (suc i) h =
    let (y, e, m) = get_elem?-member xs i (omega arith) in (y, e, ground arith)
