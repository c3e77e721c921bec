-- ===== src/NodePool/Diff.antt =====
-- `diff_nodes` as a difference of multisets.
use go_dispatch.Base.Int.{ℤ, pos, negsuc, ◌+ℤ◌, pos_part, neg_part, int_laws, parts_of_eq}
use go_dispatch.Base.Keys.{Text, text_eq, text_beq, text_beq_iff}
use go_dispatch.Base.Maps.{Map, lookup, insert, lookup-insert, insert-IsMap, IsMap}
use go_dispatch.NodePool.{count_of, tally, positive, negative, select, diff_nodes}
use go_dispatch.Base.Shared.{
  ltb, if◌then◌else◌, Bool-cases, ℕ, suc, ◌+◌, ◌≡◌, refl, sym, ap, ◌∙◌, inl, inr, Bool, true, false,
  none, List, [], ◌∷◌, ◌++◌, arith,
}

-- How often a node stands in a slice.
abbrev pub occurs : Text → List Text → ℕ
occurs x [] = 0
occurs x (y ∷ ys) = let rest = occurs x ys in if text_beq y x then suc rest else rest

pub occurs-append : (x : Text) (ys zs : List Text) → occurs x (ys ++ zs) ≡ occurs x ys + occurs x zs
occurs-append x [] zs = omega arith
occurs-append x (y ∷ ys) zs = ground (arith, occurs-append x ys zs)

count_of-insert :
    (x y : Text) (n : ℤ) (m : Map Text ℤ)
    → count_of y (insert x n m) ≡ (if text_beq x y then n else count_of y m)
count_of-insert x y n m = ground (arith, lookup-insert x y n m)

tally-IsMap : (delta : ℤ) (xs : List Text) (m : Map Text ℤ) → IsMap m → IsMap (tally delta xs m)
unfolding tally
tally-IsMap delta [] m h = h
tally-IsMap delta (x ∷ xs) m h = tally-IsMap delta xs _ (insert-IsMap x _ m h)

same_count : (x y : Text) (m : Map Text ℤ) → text_beq x y ≡ true → count_of x m ≡ count_of y m
same_count x y m h = ap (λ z. count_of z m) ((text_beq_iff x y).0 h)

hit :
    (y : Text) (n : ℤ) (x : Text) (m : Map Text ℤ)
    → text_beq x y ≡ true
    → count_of y (insert x n m) ≡ n
hit y n x m h = ground (arith, count_of-insert x y n m)

miss :
    (y : Text) (n : ℤ) (x : Text) (m : Map Text ℤ)
    → text_beq x y ≡ false
    → count_of y (insert x n m) ≡ count_of y m
miss y n x m h = ground (arith, count_of-insert x y n m)

count_of-tally_up :
    (y : Text) (xs : List Text) (m : Map Text ℤ)
    → count_of y (tally (pos 1) xs m) ≡ count_of y m +ℤ pos (occurs y xs)
unfolding tally
count_of-tally_up y [] m = omega int_laws
count_of-tally_up y (x ∷ xs) m = elim (Bool-cases (text_beq x y)) [
  | inl same ↦ rw same (
      omega (
        int_laws,
        parts_of_eq (count_of-tally_up y xs (insert x (count_of x m +ℤ pos 1) m)),
        parts_of_eq (hit y (count_of x m +ℤ pos 1) x m same),
        parts_of_eq (same_count x y m same),
      ))
  | inr other ↦ rw other (
      omega (
        int_laws,
        parts_of_eq (count_of-tally_up y xs (insert x (count_of x m +ℤ pos 1) m)),
        parts_of_eq (miss y (count_of x m +ℤ pos 1) x m other),
      ))
]

count_of-tally_down :
    (y : Text) (xs : List Text) (m : Map Text ℤ)
    → count_of y (tally (negsuc 0) xs m) +ℤ pos (occurs y xs) ≡ count_of y m
unfolding tally
count_of-tally_down y [] m = omega int_laws
count_of-tally_down y (x ∷ xs) m = elim (Bool-cases (text_beq x y)) [
  | inl same ↦ rw same (
      omega (
        int_laws,
        parts_of_eq (count_of-tally_down y xs (insert x (count_of x m +ℤ negsuc 0) m)),
        parts_of_eq (hit y (count_of x m +ℤ negsuc 0) x m same),
        parts_of_eq (same_count x y m same),
      ))
  | inr other ↦ rw other (
      omega (
        int_laws,
        parts_of_eq (count_of-tally_down y xs (insert x (count_of x m +ℤ negsuc 0) m)),
        parts_of_eq (miss y (count_of x m +ℤ negsuc 0) x m other),
      ))
]

-- Each node of a map is selected once, if its count passes the test.
occurs-select_absent :
    (test : ℤ → Bool) (x : Text) (m : Map Text ℤ) → lookup x m ≡ none → occurs x (select test m) ≡ 0
unfolding select lookup
occurs-select_absent test x [] h = refl
occurs-select_absent test x ((y, n) ∷ m) h = ground (arith, occurs-select_absent test x m)

occurs-select :
    (test : ℤ → Bool) (x : Text) (m : Map Text ℤ)
    → IsMap m
    → test (pos 0) ≡ false
    → occurs x (select test m) ≡ (if test (count_of x m) then 1 else 0)
unfolding select lookup
occurs-select test x [] d z = rw z
occurs-select test x ((y, n) ∷ m) d z = elim (Bool-cases (text_beq y x)) [
  | inl same ↦
      let gone : lookup x m ≡ none = ap (λ w. lookup w m) (sym ((text_beq_iff y x).0 same)) ∙ d.0 in
      ground (arith, occurs-select_absent test x m gone)
  | inr other ↦ ground (arith, occurs-select test x m d.1 z)
]

sign_of_difference :
    (n : ℤ) (a b : ℕ)
    → pos_part n + a ≡ neg_part n + b
    → (positive n ≡ ltb a b) × (negative n ≡ ltb b a)
sign_of_difference (pos n) a b h = (ground arith, ground arith)
sign_of_difference (negsuc n) a b h = (ground arith, ground arith)

count_of-empty : (x : Text) → count_of x [] ≡ pos 0
unfolding lookup
count_of-empty x = refl

-- `diff_nodes` reports a node as added, once, exactly when it stands more often in the new slice
-- than in the current one, and as removed, once, exactly when it stands there less often.
pub diff_nodes-occurs :
    (current_nodes new_nodes : List Text) (x : Text)
    → let (added, removed) = diff_nodes current_nodes new_nodes in
      (occurs x added ≡ (if ltb (occurs x current_nodes) (occurs x new_nodes) then 1 else 0))
      × (occurs x removed ≡ (if ltb (occurs x new_nodes) (occurs x current_nodes) then 1 else 0))
unfolding diff_nodes
diff_nodes-occurs current_nodes new_nodes x =
    let up = tally (pos 1) new_nodes [] in
    let both = tally (negsuc 0) current_nodes up in
    let d : IsMap both =
      tally-IsMap (negsuc 0) current_nodes up (tally-IsMap (pos 1) new_nodes [] tt) in
    let signs = sign_of_difference (count_of x both) (occurs x current_nodes) (occurs x new_nodes) (
      omega (
        int_laws,
        parts_of_eq (count_of-tally_down x current_nodes up),
        parts_of_eq (count_of-tally_up x new_nodes []),
        parts_of_eq (count_of-empty x),
      )) in
    (
      occurs-select positive x both d refl ∙ ap (λ b. if b then 1 else 0) signs.0,
      occurs-select negative x both d refl ∙ ap (λ b. if b then 1 else 0) signs.1,
    )
