-- ===== src/Base/Sorting.antt =====
-- `sort.Slice`, `sort.Sort` and `sort.Strings` of Go's standard library: the slice in an order
-- that its `less` allows. Go leaves open how equal elements are placed; here they keep their
-- order, and no statement about a caller depends on it.
use mathlib.Core.List.{Perm, Permᴰ}
use mathlib.Core.Logic.{∥∥₁_elim}
use native.Mathlib.Nat.{ℕ_set}
use mathlib.Core.List.Perm
use mathlib.Core.Path.{ap₂}
use native.Mathlib.Nat.{le_refl}
use go_dispatch.Base.Shared.{
  ltb, ◌==◌, if◌then◌else◌, Bool-cases, length, remove_nth, All, All-remove_nth, ◌!◌, count,
  count_index, ℕ, zero, suc, ◌≤◌, ◌<◌, ◌≡◌, refl, sym, ◌∙◌, inl, inr, Bool, true, false, List, [],
  ◌∷◌, map, arith,
}

module _ {ℓ} {A : Type ℓ} (less : A → A → Bool) where
  place : A → List A → List A
  place x [] = x ∷ []
  place x (y ∷ ys) = if less y x then y ∷ place x ys else x ∷ y ∷ ys

  unfoldable pub sort : List A → List A
  unfolding place
  sort [] = []
  sort (x ∷ xs) = place x (sort xs)

  -- No element is less than one before it.
  abbrev pub IsSortedBy : List A → Type 0
  IsSortedBy [] = Unit
  IsSortedBy (x ∷ xs) = All (λ y. less y x ≡ false) xs × IsSortedBy xs

  place-perm : (x : A) (xs : List A) → Perm (place x xs) (x ∷ xs)
  unfolding place
  place-perm x [] = Perm.refl _
  place-perm x (y ∷ ys) = elim (Bool-cases (less y x)) [
    | inl e ↦ rw e (Perm.trans (Perm.cons y (place-perm x ys)) (Perm.swap x y ys))
    | inr e ↦ rw e (Perm.refl _)
  ]

  pub sort-perm : (xs : List A) → Perm (sort xs) xs
  unfolding sort
  sort-perm [] = Perm.refl _
  sort-perm (x ∷ xs) = Perm.trans (place-perm x (sort xs)) (Perm.cons x (sort-perm xs))

  length-place : (x : A) (xs : List A) → length (place x xs) ≡ suc (length xs)
  unfolding place
  length-place x [] = refl
  length-place x (y ∷ ys) = ground (arith, length-place x ys)

  pub length-sort : (xs : List A) → length (sort xs) ≡ length xs
  unfolding sort
  length-sort [] = refl
  length-sort (x ∷ xs) = omega (arith, length-place x (sort xs), length-sort xs)

  All-place {κ} : (P : A → Type κ) (x : A) (xs : List A) → P x → All P xs → All P (place x xs)
  unfolding place
  All-place P x [] p h = (p, h)
  All-place P x (y ∷ ys) p h = elim (Bool-cases (less y x)) [
    | inl e ↦ rw e (h.0, All-place P x ys p h.1)
    | inr e ↦ rw e (p, h)
  ]

  pub All-sort {κ} : (P : A → Type κ) (xs : List A) → All P xs → All P (sort xs)
  unfolding sort
  All-sort P [] h = h
  All-sort P (x ∷ xs) h = All-place P x (sort xs) h.0 (All-sort P xs h.1)

  -- What `sort` asks of `less`.
  pub record IsOrder : Type ℓ where
    pub asym : (x y : A) → less x y ≡ true → less y x ≡ false
    pub trans : (x y z : A) → less y x ≡ false → less z y ≡ false → less z x ≡ false

  module _ (o : IsOrder) where
    All-trans :
        (x y : A) (ys : List A)
        → less y x ≡ false
        → All (λ z. less z y ≡ false) ys
        → All (λ z. less z x ≡ false) ys
    All-trans x y [] p h = h
    All-trans x y (z ∷ zs) p h = (o.trans x y z p h.0, All-trans x y zs p h.1)

    place-IsSortedBy : (x : A) (xs : List A) → IsSortedBy xs → IsSortedBy (place x xs)
    unfolding place
    place-IsSortedBy x [] h = (tt, tt)
    place-IsSortedBy x (y ∷ ys) h = elim (Bool-cases (less y x)) [
      | inl e ↦
          rw e
            (All-place (λ z. less z y ≡ false) x ys (o.asym y x e) h.0, place-IsSortedBy x ys h.1)
      | inr e ↦ rw e ((e, All-trans x y ys e h.0), h)
    ]

    pub sort-IsSortedBy : (xs : List A) → IsSortedBy (sort xs)
    unfolding sort
    sort-IsSortedBy [] = tt
    sort-IsSortedBy (x ∷ xs) = place-IsSortedBy x (sort xs) (sort-IsSortedBy xs)

-- Ascending numbers.
abbrev pub IsSorted : List ℕ → Type 0
IsSorted = IsSortedBy ltb

pub ltb_order : IsOrder ltb
ltb_order = record { asym = λ x y h. ground arith; trans = λ x y z h k. ground arith }

head_least :
    (x : ℕ) (xs : List ℕ) (j : ℕ) → All (λ y. ltb y x ≡ false) xs → j < length xs → x ≤ xs ! j
head_least x [] j h p = absurd (omega arith)
head_least x (y ∷ ys) zero h p = ground arith
head_least x (y ∷ ys) (suc j) h p = head_least x ys j h.1 (omega arith)

pub !-mono : (xs : List ℕ) (i j : ℕ) → IsSorted xs → i ≤ j → j < length xs → xs ! i ≤ xs ! j
!-mono [] i j h p q = absurd (omega arith)
!-mono (x ∷ xs) zero zero h p q = le_refl x
!-mono (x ∷ xs) zero (suc j) h p q = head_least x xs j h.0 (omega arith)
!-mono (x ∷ xs) (suc i) zero h p q = absurd (omega arith)
!-mono (x ∷ xs) (suc i) (suc j) h p q = !-mono xs i j h.1 (omega arith) (omega arith)

pub remove_nth-IsSorted : (i : ℕ) (xs : List ℕ) → IsSorted xs → IsSorted (remove_nth i xs)
remove_nth-IsSorted i [] h = h
remove_nth-IsSorted zero (x ∷ xs) h = h.1
remove_nth-IsSorted (suc i) (x ∷ xs) h =
    (All-remove_nth (λ y. ltb y x ≡ false) i xs h.0, remove_nth-IsSorted i xs h.1)

count-place : (a x : ℕ) (xs : List ℕ) → count a (place ltb x xs) ≡ count a (x ∷ xs)
unfolding place
count-place a x [] = refl
count-place a x (y ∷ ys) = ground (arith, count-place a x ys)

pub count-sort : (a : ℕ) (xs : List ℕ) → count a (sort ltb xs) ≡ count a xs
unfolding sort
count-sort a [] = refl
count-sort a (x ∷ xs) = ground (arith, count-place a x (sort ltb xs), count-sort a xs)

-- A sorted slice starts with the least of its elements.
heads-le :
    (x y : ℕ) (xs ys : List ℕ)
    → IsSorted (y ∷ ys)
    → ((a : ℕ) → count a (x ∷ xs) ≡ count a (y ∷ ys))
    → y ≤ x
heads-le x y xs ys h same =
    let (i, p, q) = count_index x (y ∷ ys) (ground (arith, same x)) in
    omega (arith, !-mono (y ∷ ys) 0 i h)

-- Sorted slices of the same numbers are equal.
pub sorted_unique :
    (xs ys : List ℕ) → IsSorted xs → IsSorted ys → ((a : ℕ) → count a xs ≡ count a ys) → xs ≡ ys
sorted_unique [] [] h k same = refl
sorted_unique [] (y ∷ ys) h k same = absurd (ground (arith, same y))
sorted_unique (x ∷ xs) [] h k same = absurd (ground (arith, same x))
sorted_unique (x ∷ xs) (y ∷ ys) h k same =
    let e : x ≡ y =
      omega (arith, heads-le x y xs ys k same, heads-le y x ys xs h (λ a. sym (same a))) in
    ap₂ ◌∷◌ e (sorted_unique xs ys h.1 k.1 (λ a. ground (arith, same a)))

-- Sorting rearranges: what is counted of the elements stays.
count-map-permᴰ {ℓ} :
    {A : Type ℓ} (f : A → ℕ) (a : ℕ) {xs ys : List A}
    → Permᴰ xs ys
    → count a (map f xs) ≡ count a (map f ys)
count-map-permᴰ f a Permᴰ.nil = refl
count-map-permᴰ f a (Permᴰ.cons e p) =
    ap₂ (λ x n. if f x == a then suc n else n) e (count-map-permᴰ f a p)
count-map-permᴰ f a (Permᴰ.swap {a = x} {b = y} {l = l} e e') =
    rw (← e, ← e') (swapped (f x == a) (f y == a) (count a (map f l)))
  where
    swapped :
        (s t : Bool) (n : ℕ)
        → (if s then suc (if t then suc n else n) else (if t then suc n else n))
          ≡ (if t then suc (if s then suc n else n) else (if s then suc n else n))
    swapped s t n = ground arith
count-map-permᴰ f a (Permᴰ.trans p q) = count-map-permᴰ f a p ∙ count-map-permᴰ f a q

pub count-map-sort {ℓ} :
    {A : Type ℓ} (less : A → A → Bool) (f : A → ℕ) (a : ℕ) (xs : List A)
    → count a (map f (sort less xs)) ≡ count a (map f xs)
count-map-sort less f a xs = ∥∥₁_elim (sort-perm less xs) (ℕ_set _ _) (count-map-permᴰ f a)
