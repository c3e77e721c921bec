-- ===== src/Cron/Chain.antt =====
-- cron/chain.go: a chain of wrappers around a job. Jobs are handles, numbers.
use go_dispatch.Base.Shared.{
  length, get_elem?, take, get_elem?-lt, ℕ, zero, suc, ◌+◌, ◌-◌, ◌≡◌, refl, sym, ap, ◌∙◌, Option,
  none, some, List, [], ◌∷◌, ◌++◌, arith,
}

abbrev pub JobWrapper : Type 0
JobWrapper = ℕ → ℕ

-- The rounds of the loop of `Then` from round `i` on: `j = wrappers[len(wrappers)-i-1](j)`.
then_loop : ℕ → ℕ → List JobWrapper → ℕ → Option ℕ
then_loop zero i wrappers j = some j
then_loop (suc left) i wrappers j = elim (get_elem? wrappers (length wrappers - i - 1)) [
  | none ↦ none
  | some wrapper ↦ then_loop left (i + 1) wrappers (wrapper j)
]

unfoldable pub chain_then : List JobWrapper → ℕ → Option ℕ
unfolding then_loop
chain_then wrappers j = then_loop (length wrappers) 0 wrappers j

-- m1(m2(m3(job))) for the wrappers m1, m2, m3.
abbrev pub wrap_all : List JobWrapper → ℕ → ℕ
wrap_all [] j = j
wrap_all (m ∷ ms) j = m (wrap_all ms j)

wrap_all-append :
    (xs ys : List JobWrapper) (j : ℕ) → wrap_all (xs ++ ys) j ≡ wrap_all xs (wrap_all ys j)
wrap_all-append [] ys j = refl
wrap_all-append (x ∷ xs) ys j = ap x (wrap_all-append xs ys j)

take-suc :
    (n : ℕ) (xs : List JobWrapper) (m : JobWrapper)
    → get_elem? xs n ≡ some m
    → take (suc n) xs ≡ take n xs ++ m ∷ []
take-suc n [] m e = cc
take-suc zero (x ∷ xs) m e = cc
take-suc (suc n) (x ∷ xs) m e = ap (◌∷◌ x) (take-suc n xs m e)

take_all : (xs : List JobWrapper) → take (length xs) xs ≡ xs
take_all [] = refl
take_all (x ∷ xs) = ap (◌∷◌ x) (take_all xs)

then_loop-wrap_all :
    (left i : ℕ) (wrappers : List JobWrapper) (j : ℕ)
    → i + left ≡ length wrappers
    → then_loop left i wrappers j ≡ some (wrap_all (take left wrappers) j)
unfolding then_loop
then_loop-wrap_all zero i wrappers j e = refl
then_loop-wrap_all (suc left) i wrappers j e =
    let at : length wrappers - i - 1 ≡ left = omega arith in
    let (m, here) = get_elem?-lt wrappers left (omega arith) in
    let rest = then_loop-wrap_all left (i + 1) wrappers (m j) (omega arith) in
    rw (then_loop, at, here)
      (rest
        ∙ ap some (
            sym (wrap_all-append (take left wrappers) (m ∷ []) j)
            ∙ ap (λ ws. wrap_all ws j) (sym (take-suc left wrappers m here))))

-- `Then` applies the last wrapper first and never indexes out of range: it makes m1(m2(m3(job)))
-- of the wrappers m1, m2, m3.
pub chain_then-wrap_all :
    (wrappers : List JobWrapper) (j : ℕ) → chain_then wrappers j ≡ some (wrap_all wrappers j)
unfolding chain_then
chain_then-wrap_all wrappers j =
    then_loop-wrap_all (length wrappers) 0 wrappers j (omega arith)
    ∙ ap (λ ws. some (wrap_all ws j)) (take_all wrappers)
