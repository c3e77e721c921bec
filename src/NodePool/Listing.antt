-- ===== src/NodePool/Listing.antt =====
-- Which hosts a ring lists after the loops of `update_hash_ring`.
use go_dispatch.Ring.Invariant.{listed}
use mathlib.Core.Path.{ap₂}
use mathlib.Core.Logic.{∥∥₁_elim}
use mathlib.Core.List.{Permᴰ}
use native.Mathlib.Nat.{ℕ_set}
use go_dispatch.Base.Outcome.{Returns, Returns-inv}
use go_dispatch.Base.Keys.{Text, text_eq, nat_eq, text_beq}
use go_dispatch.Base.Sorting.{sort, IsSorted, sort-perm}
use go_dispatch.Ring.{Consistent, add}
use go_dispatch.Ring.Listing.{Unlisted, remove-listed, add-listed}
use go_dispatch.NodePool.{remove_all, add_all, lift}
use go_dispatch.NodePool.Diff.{occurs}
use go_dispatch.Base.Shared.{
  ltb, if◌then◌else◌, ℕ, suc, ◌≡◌, refl, ◌∙◌, Bool, true, false, List, [], ◌∷◌, arith,
}

occurs-permᴰ : (x : Text) {xs ys : List Text} → Permᴰ xs ys → occurs x xs ≡ occurs x ys
occurs-permᴰ x Permᴰ.nil = refl
occurs-permᴰ x (Permᴰ.cons e p) =
    ap₂ (λ y n. if text_beq y x then suc n else n) e (occurs-permᴰ x p)
occurs-permᴰ x (Permᴰ.swap y z) = ground arith
occurs-permᴰ x (Permᴰ.trans p q) = occurs-permᴰ x p ∙ occurs-permᴰ x q

pub occurs-sort :
    (less : Text → Text → Bool) (x : Text) (xs : List Text) → occurs x (sort less xs) ≡ occurs x xs
occurs-sort less x xs = ∥∥₁_elim (sort-perm less xs) (ℕ_set _ _) (occurs-permᴰ x)

module _ (sum64 : Text → ℕ) where
  abbrev pub AllUnlisted : List Text → Consistent → Consistent → Type 0
  AllUnlisted xs c c' =
      IsSorted c'.sorted_set
      × ((y : Text) → listed c' y ≡ (if ltb 0 (occurs y xs) then false else listed c y))

  pub remove_all-listed :
      (xs : List Text) (c : Consistent)
      → IsSorted c.sorted_set
      → Returns (AllUnlisted xs c) (remove_all sum64 xs c)
  unfolding remove_all lift
  remove_all-listed [] c h = (h, λ y. refl)
  remove_all-listed (x ∷ xs) c h =
      let (res, e, (sorted, gone)) =
        Returns-inv (Unlisted sum64 x c) _ (remove-listed sum64 x c h) in
      let (c', e', (sorted', rest)) =
        Returns-inv (AllUnlisted xs res.1) _ (remove_all-listed xs res.1 sorted) in
      rw (e, lift, e') (sorted', λ y. ground (arith, rest y, gone y))

  pub add_all-listed :
      (xs : List Text) (c : Consistent)
      → IsSorted c.sorted_set
      → IsSorted (add_all sum64 xs c).sorted_set
        × ((y : Text)
            → listed (add_all sum64 xs c) y ≡ (if ltb 0 (occurs y xs) then true else listed c y))
  unfolding add_all
  add_all-listed [] c h = (h, λ y. refl)
  add_all-listed (x ∷ xs) c h =
      let (sorted, new) = add-listed sum64 x c h in
      let (sorted', rest) = add_all-listed xs (add sum64 c x) sorted in
      (sorted', λ y. ground (arith, rest y, new y))
