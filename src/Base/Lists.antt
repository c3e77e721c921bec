-- ===== src/Base/Lists.antt =====
-- Go slices as lists, measured and indexed by native numbers.
use mathlib.Core.Path.{subst}
use Prim.Native.Nat.{ℕ, zero, suc, ◌+◌, ◌<◌}
use mathlib.Core.Path.{◌≡◌, refl, ap}
use mathlib.Core.Logic.{◌≢◌, inl, inr}
use mathlib.Core.List.{List, [], ◌∷◌, ◌++◌}
use mathlib.Core.Bool.{Bool, true}
use mathlib.Core.Option.{Option, none, some}
use native.Mathlib.Omega.{arith}
use go_dispatch.Base.Tests.{◌==◌, if◌then◌else◌, Bool-cases}

module _ {ℓ} {A : Type ℓ} where
  abbrev pub length : List A → ℕ
  length [] = 0
  length (x ∷ xs) = suc (length xs)

  abbrev pub get_elem? : List A → ℕ → Option A
  get_elem? [] i = none
  get_elem? (x ∷ xs) zero = some x
  get_elem? (x ∷ xs) (suc i) = get_elem? xs i

  abbrev pub set : List A → ℕ → A → List A
  set [] i v = []
  set (x ∷ xs) zero v = v ∷ xs
  set (x ∷ xs) (suc i) v = x ∷ set xs i v

  abbrev pub take : ℕ → List A → List A
  take zero xs = []
  take (suc n) [] = []
  take (suc n) (x ∷ xs) = x ∷ take n xs

  abbrev pub drop : ℕ → List A → List A
  drop zero xs = xs
  drop (suc n) [] = []
  drop (suc n) (x ∷ xs) = drop n xs

  -- The slice without its element `i`: `append(xs[:i], xs[i+1:]...)`.
  abbrev pub remove_nth : ℕ → List A → List A
  remove_nth i [] = []
  remove_nth zero (x ∷ xs) = xs
  remove_nth (suc i) (x ∷ xs) = x ∷ remove_nth i xs

  abbrev pub All {κ} : (A → Type κ) → List A → Type κ
  All P [] = Unit
  All P (x ∷ xs) = P x × All P xs

  pub length-append : (xs ys : List A) → length (xs ++ ys) ≡ length xs + length ys
  length-append [] ys = omega arith
  length-append (x ∷ xs) ys = omega (arith, length-append xs ys)

  pub All-append {κ} : (P : A → Type κ) (xs ys : List A) → All P xs → All P ys → All P (xs ++ ys)
  All-append P [] ys hx hy = hy
  All-append P (x ∷ xs) ys hx hy = (hx.0, All-append P xs ys hx.1 hy)

  pub get_elem?-lt : (xs : List A) (i : ℕ) → i < length xs → (x : A) × (get_elem? xs i ≡ some x)
  get_elem?-lt [] i h = absurd (omega arith)
  get_elem?-lt (x ∷ xs) zero h = (x, refl)
  get_elem?-lt (x ∷ xs) (suc i) h = get_elem?-lt xs i (omega arith)

module _ {ℓ} {A : Type ℓ} where
  pub length-remove_nth :
      (i : ℕ) (xs : List A) → i < length xs → length xs ≡ suc (length (remove_nth i xs))
  length-remove_nth i [] h = absurd (omega arith)
  length-remove_nth zero (x ∷ xs) h = refl
  length-remove_nth (suc i) (x ∷ xs) h = ap suc (length-remove_nth i xs (omega arith))

  pub All-remove_nth {κ} :
      (P : A → Type κ) (i : ℕ) (xs : List A) → All P xs → All P (remove_nth i xs)
  All-remove_nth P i [] h = h
  All-remove_nth P zero (x ∷ xs) h = h.1
  All-remove_nth P (suc i) (x ∷ xs) h = (h.0, All-remove_nth P i xs h.1)

  pub All-mono {κ μ} :
      (P : A → Type κ) (Q : A → Type μ) (xs : List A) → ((x : A) → P x → Q x) → All P xs → All Q xs
  All-mono P Q [] f h = tt
  All-mono P Q (x ∷ xs) f h = (f x h.0, All-mono P Q xs f h.1)

  pub All-set {κ} :
      (P : A → Type κ) (xs : List A) (i : ℕ) (y : A) → All P xs → P y → All P (set xs i y)
  All-set P [] i y h hy = h
  All-set P (x ∷ xs) zero y h hy = (hy, h.1)
  All-set P (x ∷ xs) (suc i) y h hy = (h.0, All-set P xs i y h.1 hy)

  pub All-get_elem? {κ} :
      (P : A → Type κ) (xs : List A) (i : ℕ) (x : A) → All P xs → get_elem? xs i ≡ some x → P x
  All-get_elem? P [] i x h e = absurd cc
  All-get_elem? P (y ∷ xs) zero x h e = let same : y ≡ x = cc in subst P same h.0
  All-get_elem? P (y ∷ xs) (suc i) x h e = All-get_elem? P xs i x h.1 e

  pub length-set : (xs : List A) (i : ℕ) (y : A) → length (set xs i y) ≡ length xs
  length-set [] i y = refl
  length-set (x ∷ xs) zero y = refl
  length-set (x ∷ xs) (suc i) y = ap suc (length-set xs i y)

-- How many elements pass the test.
abbrev pub count_by {ℓ} : {A : Type ℓ} → (A → Bool) → List A → ℕ
count_by p [] = 0
count_by p (x ∷ xs) = let rest = count_by p xs in if p x then suc rest else rest

module _ {ℓ} {A : Type ℓ} (p : A → Bool) where
  pub count_by-append : (xs ys : List A) → count_by p (xs ++ ys) ≡ count_by p xs + count_by p ys
  count_by-append [] ys = omega arith
  count_by-append (x ∷ xs) ys = ground (arith, count_by-append xs ys)

  -- Writing at an index takes the old element out of the count and the new one in.
  pub count_by-set :
      (xs : List A) (i : ℕ) (x y : A)
      → get_elem? xs i ≡ some x
      → count_by p (set xs i y) + (if p x then 1 else 0) ≡ count_by p xs + (if p y then 1 else 0)
  count_by-set [] i x y e = cc
  count_by-set (z ∷ zs) zero x y e = let same : p z ≡ p x = cc in ground (arith, same)
  count_by-set (z ∷ zs) (suc i) x y e = ground (arith, count_by-set zs i x y e)

  pub count_by-find :
      (xs : List A)
      → 0 < count_by p xs
      → (i : ℕ) × (x : A) × (get_elem? xs i ≡ some x) × (p x ≡ true)
  count_by-find [] h = absurd (omega arith)
  count_by-find (x ∷ xs) h = elim (Bool-cases (p x)) [
    | inl e ↦ (0, x, refl, e)
    | inr e ↦ let (i, y, at, q) = count_by-find xs (ground (arith, e, h)) in (suc i, y, at, q)
  ]

-- A read that is in range wherever a statement uses it.
infixl 90 ◌!◌
abbrev pub ◌!◌ : List ℕ → ℕ → ℕ
[] ! i = 0
(x ∷ xs) ! zero = x
(x ∷ xs) ! (suc i) = xs ! i

pub get_elem?-! : (xs : List ℕ) (i : ℕ) → i < length xs → get_elem? xs i ≡ some (xs ! i)
get_elem?-! [] i h = absurd (omega arith)
get_elem?-! (x ∷ xs) zero h = refl
get_elem?-! (x ∷ xs) (suc i) h = get_elem?-! xs i (omega arith)

-- How often `a` occurs.
abbrev pub count : ℕ → List ℕ → ℕ
count a [] = 0
count a (x ∷ xs) = let rest = count a xs in if x == a then suc rest else rest

pub count-append : (a : ℕ) (xs ys : List ℕ) → count a (xs ++ ys) ≡ count a xs + count a ys
count-append a [] ys = omega arith
count-append a (x ∷ xs) ys = ground (arith, count-append a xs ys)

pub count-remove_nth :
    (a i : ℕ) (xs : List ℕ)
    → i < length xs
    → count a xs ≡ count a (remove_nth i xs) + (if xs ! i == a then 1 else 0)
count-remove_nth a i [] h = absurd (omega arith)
count-remove_nth a zero (x ∷ xs) h = ground arith
count-remove_nth a (suc i) (x ∷ xs) h = ground (arith, count-remove_nth a i xs)

pub count_index : (a : ℕ) (xs : List ℕ) → 0 < count a xs → (i : ℕ) × (i < length xs) × (xs ! i ≡ a)
count_index a [] h = absurd (omega arith)
count_index a (x ∷ xs) h = elim (Bool-cases (x == a)) [
  | inl e ↦ (0, omega arith, ground arith)
  | inr e ↦ let (i, p, q) = count_index a xs (ground arith) in (suc i, omega arith, q)
]

pub count-pos : (xs : List ℕ) (i : ℕ) → i < length xs → 0 < count (xs ! i) xs
count-pos [] i h = absurd (omega arith)
count-pos (x ∷ xs) zero h = ground arith
count-pos (x ∷ xs) (suc i) h = ground (arith, count-pos xs i)

pub count-zero : (a : ℕ) (xs : List ℕ) → ((i : ℕ) → i < length xs → xs ! i ≢ a) → count a xs ≡ 0
count-zero a [] h = refl
count-zero a (x ∷ xs) h =
    ground (arith, h 0 (omega arith), count-zero a xs (λ i p. h (suc i) (omega arith)))
