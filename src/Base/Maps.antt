-- ===== src/Base/Maps.antt =====
-- A Go map as an association list whose keys differ.
use go_dispatch.Base.Keys.{Eq}
use go_dispatch.Base.Shared.{
  suc, ◌≡◌, refl, List, [], ◌∷◌, Option, none, some, arith, length, if◌then◌else◌, is_some,
}

abbrev pub Map {ℓ κ} : Type ℓ → Type κ → Type (ℓ ⊔ κ)
Map K V = List (K × V)

module _ {ℓ κ} {K : Type ℓ} {V : Type κ} ⦃e : Eq K⦄ where
  -- `v, ok := m[k]`
  unfoldable pub lookup : K → Map K V → Option V
  lookup k [] = none
  lookup k ((j, v) ∷ m) = if e.beq j k then some v else lookup k m

  -- `m[k] = v`
  unfoldable pub insert : K → V → Map K V → Map K V
  insert k v [] = (k, v) ∷ []
  insert k v ((j, w) ∷ m) = if e.beq j k then (j, v) ∷ m else (j, w) ∷ insert k v m

  -- `delete(m, k)`
  unfoldable pub erase : K → Map K V → Map K V
  erase k [] = []
  erase k ((j, w) ∷ m) = if e.beq j k then erase k m else (j, w) ∷ erase k m

  pub lookup-insert :
      (k j : K) (v : V) (m : Map K V)
      → lookup j (insert k v m) ≡ (if e.beq k j then some v else lookup j m)
  unfolding lookup insert
  lookup-insert k j v [] = refl
  lookup-insert k j v ((i, w) ∷ m) =
      ground (arith, e.beq_iff k j, e.beq_iff i k, e.beq_iff i j, lookup-insert k j v m)

  pub lookup-erase :
      (k j : K) (m : Map K V) → lookup j (erase k m) ≡ (if e.beq k j then none else lookup j m)
  unfolding lookup erase
  lookup-erase k j [] = ground arith
  lookup-erase k j ((i, w) ∷ m) =
      ground (arith, e.beq_iff k j, e.beq_iff i k, e.beq_iff i j, lookup-erase k j m)

  -- Each key stands in the list once, so that the list's length is the map's.
  abbrev pub IsMap : Map K V → Type κ
  IsMap [] = Unit
  IsMap ((k, v) ∷ m) = (lookup k m ≡ none) × IsMap m

  pub erase_absent : (k : K) (m : Map K V) → lookup k m ≡ none → erase k m ≡ m
  unfolding lookup erase
  erase_absent k [] h = refl
  erase_absent k ((i, w) ∷ m) h = ground (arith, erase_absent k m)

  pub insert-IsMap : (k : K) (v : V) (m : Map K V) → IsMap m → IsMap (insert k v m)
  unfolding lookup insert
  insert-IsMap k v [] h = (refl, tt)
  insert-IsMap k v ((i, w) ∷ m) h =
      ground (arith, lookup-insert k i v m, e.beq_iff k i, e.beq_iff i k, insert-IsMap k v m)

  pub erase-IsMap : (k : K) (m : Map K V) → IsMap m → IsMap (erase k m)
  unfolding lookup erase
  erase-IsMap k [] h = h
  erase-IsMap k ((i, w) ∷ m) h = ground (arith, lookup-erase k i m, erase-IsMap k m)

  pub length-insert :
      (k : K) (v : V) (m : Map K V)
      → length (insert k v m) ≡ (if is_some (lookup k m) then length m else suc (length m))
  unfolding lookup insert
  length-insert k v [] = refl
  length-insert k v ((i, w) ∷ m) = ground (arith, length-insert k v m)

  pub length-erase :
      (k : K) (m : Map K V)
      → IsMap m
      → length m ≡ (if is_some (lookup k m) then suc (length (erase k m)) else length (erase k m))
  unfolding lookup erase
  length-erase k [] h = refl
  length-erase k ((i, w) ∷ m) h = ground (arith, length-erase k m, erase_absent k m, e.beq_iff i k)

  -- A new key is added at the end, and `erase` takes it away again.
  pub erase-insert : (k : K) (v : V) (m : Map K V) → lookup k m ≡ none → erase k (insert k v m) ≡ m
  unfolding lookup insert erase
  erase-insert k v [] h = ground (arith, e.beq_iff k k)
  erase-insert k v ((i, w) ∷ m) h = ground (arith, erase-insert k v m)
