-- ===== src/Fields/Range.antt =====
-- `get_range` and `get_field`: what an accepted expression makes of a field.
use go_dispatch.Base.Maps.{lookup, Map}
use Prim.Native.Nat.{bit_or}
use go_dispatch.Base.Bits.{bit-lt, bit-bit_or, bit-pow, has, has-bit}
use go_dispatch.Base.Keys.{Text}
use go_dispatch.Base.Int.{ℤ, pos, negsuc}
use go_dispatch.Base.Strings.{to_lower, split, atoi, atoi-lt}
use go_dispatch.Base.Keys.{text_eq}
use go_dispatch.Base.Outcome.{ok, err, ◌>>=◌, Ensures, Ensures-bind}
use go_dispatch.Fields.{
  named, is_star, negative_number, bad_int, too_many_hyphens, Bounds, ParseError, star_bit,
  get_bits, must_parse_int, parse_int_or_name, parse_low_high, parse_step, check_range, get_range,
  field_loop, get_field, head_of, tail_of,
}
use go_dispatch.Fields.BitRange.{on_step, get_bits-has, bit-empty}
use go_dispatch.Base.Shared.{
  ltb, ◌==◌, if◌then◌else◌, Bool-cases, Option-cases, length, ℕ, ◌^◌, ◌≤◌, ◌<◌, ◌≡◌, refl, ap, ◌∙◌,
  ◌⊎◌, inl, inr, Bool, true, false, ◌&&◌, ◌||◌, Option, none, some, List, [], ◌∷◌, arith,
}

pub has-bit_or : (a b v : ℕ) → has (bit_or a b) v ≡ (has a v || has b v)
has-bit_or a b v = ground (
  arith,
  has-bit (bit_or a b) v,
  has-bit a v,
  has-bit b v,
  bit-bit_or v a b,
  bit-lt v a,
  bit-lt v b,
)

has-zero : (v : ℕ) → has 0 v ≡ false
has-zero v = ground (arith, has-bit 0 v, bit-empty v)

pub has-star : (v : ℕ) → has star_bit v ≡ (63 == v)
has-star v = ground (arith, has-bit star_bit v, bit-pow 63 v)

-- The star bit or none.
abbrev IsStar : ℕ → Type 0
IsStar extra = (extra ≡ 0) ⊎ (extra ≡ star_bit)

-- The word holds a stepped range that lies within the bounds, and perhaps the star bit.
pub record IsRange (r : Bounds) (bits : ℕ) : Type 0 where
  pub start : ℕ
  pub end' : ℕ
  pub step : ℕ
  pub star : Bool
  pub ordered : (r.min ≤ start) × (start ≤ end') × (end' ≤ r.max) × (0 < step)
  pub exact : (v : ℕ) → has bits v ≡ (on_step start end' step v || (star && (63 == v)))

starred : (extra : ℕ) → IsStar extra → (star : Bool) × ((v : ℕ) → has extra v ≡ (star && (63 == v)))
starred extra (inl e) = (false, λ v. rw e (has-zero v))
starred extra (inr e) = (true, λ v. rw e (has-star v))

check_range-IsRange :
    (expr : Text) (r : Bounds) (start end' step extra : ℕ)
    → r.max < 63
    → step < 2 ^ 63
    → IsStar extra
    → Ensures (IsRange r) (check_range expr r start end' step extra)
unfolding check_range
check_range-IsRange expr r start end' step extra small bounded s =
    elim (Bool-cases (ltb start r.min)) [
      | inl a ↦ rw a tt
      | inr a ↦ elim (Bool-cases (ltb r.max end')) [
        | inl b ↦ rw (a, b) tt
        | inr b ↦ elim (Bool-cases (ltb end' start)) [
          | inl c ↦ rw (a, b, c) tt
          | inr c ↦ elim (Bool-cases (step == 0)) [
            | inl d ↦ rw (a, b, c, d) tt
            | inr d ↦
                let (star, is_star) = starred extra s in
                rw (a, b, c, d)
                  (record {
                    start = start;
                    end' = end';
                    step = step;
                    star = star;
                    ordered = ground arith;
                    exact = λ v.
                        has-bit_or (get_bits start end' step) extra v
                        ∙ ap (λ b. b || has extra v)
                            (get_bits-has start end' step v (ground arith) bounded (ground arith)
                              (ground arith))
                        ∙ ap (λ b. on_step start end' step v || b) (is_star v);
                  })
          ]
        ]
      ]
    ]

must_parse_int-ends : (expr : Text) → Ensures (λ _. Unit) (must_parse_int expr)
unfolding must_parse_int
must_parse_int-ends expr = go (atoi expr)
  where
    go :
        (o : Option ℤ)
        → Ensures {E = ParseError}
            (λ _. Unit)
            (elim o [
              | none ↦ err (bad_int expr)
              | some (pos n) ↦ ok n
              | some (negsuc n) ↦ err (negative_number (negsuc n) expr)
            ])
    go none = tt
    go (some (pos n)) = tt
    go (some (negsuc n)) = tt

parse_int_or_name-ends :
    (expr : Text) (names : Option (Map Text ℕ)) → Ensures (λ _. Unit) (parse_int_or_name expr names)
unfolding parse_int_or_name named
parse_int_or_name-ends expr none = must_parse_int-ends expr
parse_int_or_name-ends expr (some names) = elim (Option-cases (lookup (to_lower expr) names)) [
  | inl e ↦ rw (parse_int_or_name, named, e) (must_parse_int-ends expr)
  | inr (n, e) ↦ rw (parse_int_or_name, named, e) tt
]

parse_low_high-IsStar :
    (expr low : Text) (rest : List Text) (r : Bounds)
    → Ensures (λ (_, _, extra). IsStar extra) (parse_low_high expr low rest r)
unfolding parse_low_high
parse_low_high-IsStar expr low rest r = elim (Bool-cases (is_star low)) [
  | inl star ↦ rw star (inr refl)
  | inr number ↦ rw number (
      Ensures-bind (λ _. Unit) _ (parse_int_or_name low r.names) _
        (parse_int_or_name-ends _ r.names) (λ start _. after start rest))
]
  where
    after :
        (start : ℕ) (rest : List Text)
        → Ensures {E = ParseError}
            (λ (_, _, extra). IsStar extra)
            (elim rest [
              | [] ↦ ok (start, start, 0)
              | high ∷ [] ↦ parse_int_or_name high r.names >>= λ end'. ok (start, end', 0)
              | high ∷ more ∷ others ↦ err (too_many_hyphens expr)
            ])
    after start [] = inl refl
    after start (high ∷ []) =
        Ensures-bind (λ _. Unit) _ (parse_int_or_name high r.names) _
          (parse_int_or_name-ends _ r.names) (λ end' _. inl refl)
    after start (high ∷ more ∷ others) = tt

must_parse_int-lt : (expr : Text) → Ensures (λ n. n < 2 ^ 63) (must_parse_int expr)
unfolding must_parse_int
must_parse_int-lt expr = go (atoi expr) refl
  where
    go :
        (o : Option ℤ)
        → atoi expr ≡ o
        → Ensures {E = ParseError}
            (λ n. n < 2 ^ 63)
            (elim o [
              | none ↦ err (bad_int expr)
              | some (pos n) ↦ ok n
              | some (negsuc n) ↦ err (negative_number (negsuc n) expr)
            ])
    go none e = tt
    go (some (pos n)) e = atoi-lt expr n e
    go (some (negsuc n)) e = tt

parse_step-fits :
    (expr : Text) (steps : List Text) (single : Bool) (r : Bounds) (end' extra : ℕ)
    → IsStar extra
    → Ensures
        (λ (_, step, extra'). (step < 2 ^ 63) × IsStar extra')
        (parse_step expr steps single r end' extra)
unfolding parse_step
parse_step-fits expr [] single r end' extra s = (omega arith, s)
parse_step-fits expr (t ∷ []) single r end' extra s =
    Ensures-bind (λ n. n < 2 ^ 63) _ (must_parse_int t) _ (must_parse_int-lt t)
      (λ step h. (h, cleared step))
  where
    cleared : (step : ℕ) → IsStar (if ltb 1 step then 0 else extra)
    cleared step = elim (Bool-cases (ltb 1 step)) [ inl e ↦ rw e (inl refl) | inr e ↦ rw e s ]
parse_step-fits expr (t ∷ u ∷ others) single r end' extra s = tt

-- On every expression `get_range` ends with an error or with the bits of a range and perhaps the
-- star bit. The range starts and ends within the bounds of the field, which lie below 63, and has
-- a positive step. It never panics.
pub get_range-IsRange :
    (expr : Text) (r : Bounds) → r.max < 63 → Ensures (IsRange r) (get_range expr r)
unfolding get_range
get_range-IsRange expr r small =
    let range_and_step = split expr b'/' in
    let low_and_high = split (head_of range_and_step) b'-' in
    Ensures-bind (λ (_, _, extra). IsStar extra) (IsRange r)
      (parse_low_high expr (head_of low_and_high) (tail_of low_and_high) r) _
      (parse_low_high-IsStar expr (head_of low_and_high) (tail_of low_and_high) r)
      λ (start, end', extra) s.
        Ensures-bind (λ (_, step, extra'). (step < 2 ^ 63) × IsStar extra') (IsRange r)
          (parse_step expr (tail_of range_and_step) (length low_and_high == 1) r end' extra)
          (λ (end'', step, extra'). check_range expr r start end'' step extra')
          (parse_step-fits expr (tail_of range_and_step) (length low_and_high == 1) r end' extra s)
          λ (end'', step, extra') (fits, s').
            check_range-IsRange expr r start end'' step extra' small fits s'

-- Every bit of the word is the star bit or lies within the bounds.
abbrev pub IsWithin : Bounds → ℕ → Type 0
IsWithin r bits = (v : ℕ) → has bits v ≡ true → (v ≡ 63) ⊎ ((r.min ≤ v) × (v ≤ r.max))

IsRange-IsWithin : (r : Bounds) (bits : ℕ) → IsRange r bits → IsWithin r bits
IsRange-IsWithin r bits h v there = ground (arith, h.exact v, h.ordered)

field_loop-IsWithin :
    (ranges : List Text) (r : Bounds) (bits : ℕ)
    → r.max < 63
    → IsWithin r bits
    → Ensures (IsWithin r) (field_loop ranges r bits)
unfolding field_loop
field_loop-IsWithin [] r bits small h = h
field_loop-IsWithin (expr ∷ ranges) r bits small h =
    Ensures-bind (IsRange r) (IsWithin r) (get_range expr r) _ (get_range-IsRange expr r small)
      λ more range.
        field_loop-IsWithin ranges r (bit_or bits more) small
          λ v there. ground (arith, has-bit_or bits more v, h v, IsRange-IsWithin r more range v)

-- Whatever text a field has, `get_field` ends with an error or with bits none of which lies
-- outside the bounds of the field but the star bit, for bounds below 63. It never panics.
pub get_field-IsWithin :
    (field : Text) (r : Bounds) → r.max < 63 → Ensures (IsWithin r) (get_field field r)
unfolding get_field
get_field-IsWithin field r small =
    field_loop-IsWithin _ r 0 small (λ v there. ground (arith, has-zero v))
