-- ===== src/Base/Submaps.antt =====
-- Maps whose keys are among those of another map, by text.
use go_dispatch.Base.Maps.{length-erase, erase-IsMap, lookup-erase, erase, IsMap, Map, lookup}
use go_dispatch.Base.Keys.{text_beq_refl, text_beq_iff, text_beq, Text, text_eq, nat_eq}
use go_dispatch.Base.Shared.{
  Bool-cases, is_some, length, ◌≤◌, ◌<◌, ◌≡◌, sym, ap, ◌∙◌, inl, inr, true, none, [], ◌∷◌, arith,
}

-- The keys of one map are keys of the other.
abbrev pub IsSubmap : {V W : Type 0} → Map Text V → Map Text W → Type 0
IsSubmap m m' = (k : Text) → is_some (lookup k m) ≡ true → is_some (lookup k m') ≡ true

length-IsSubmap :
    {V W : Type 0} (m : Map Text V) (m' : Map Text W)
    → IsMap m
    → IsMap m'
    → IsSubmap m m'
    → length m ≤ length m'
unfolding lookup
length-IsSubmap [] m' d d' h = omega arith
length-IsSubmap ((k, v) ∷ m) m' d d' h =
    let here : is_some (lookup k m') ≡ true = h k (ground (arith, text_beq_refl k)) in
    let rest : length m ≤ length (erase k m') =
      length-IsSubmap m (erase k m') d.1 (erase-IsMap k m' d') λ j there. still j there in
    ground (arith, length-erase k m' d', here, rest)
  where
    still : (j : Text) → is_some (lookup j m) ≡ true → is_some (lookup j (erase k m')) ≡ true
    still j there = elim (Bool-cases (text_beq k j)) [
      | inl same ↦
          let gone : lookup j m ≡ none =
            ap (λ z. lookup z m) (sym ((text_beq_iff k j).0 same)) ∙ d.0 in
          absurd cc
      | inr other ↦ rw (lookup-erase k j m', other) (h j (rw other there))
    ]

-- A key that only the second map has makes that longer.
pub length-IsSubmap_lt :
    {V W : Type 0} (m : Map Text V) (m' : Map Text W) (x : Text)
    → IsMap m
    → IsMap m'
    → IsSubmap m m'
    → lookup x m ≡ none
    → is_some (lookup x m') ≡ true
    → length m < length m'
length-IsSubmap_lt m m' x d d' h absent there =
    let rest : length m ≤ length (erase x m') =
      length-IsSubmap m (erase x m') d (erase-IsMap x m' d') (λ j in_m. apart j in_m) in
    ground (arith, length-erase x m' d', there, rest)
  where
    apart : (j : Text) → is_some (lookup j m) ≡ true → is_some (lookup j (erase x m')) ≡ true
    apart j in_m = elim (Bool-cases (text_beq x j)) [
      | inl same ↦
          let gone : lookup j m ≡ none =
            ap (λ z. lookup z m) (sym ((text_beq_iff x j).0 same)) ∙ absent in
          absurd cc
      | inr other ↦ rw (lookup-erase x j m', other) (h j in_m)
    ]
