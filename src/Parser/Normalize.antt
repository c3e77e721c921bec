-- ===== src/Parser/Normalize.antt =====
-- `normalize_fields`: six fields, or an error.
use go_dispatch.Parser.Options.{second_optional, dow_optional}
use go_dispatch.Fields.{ParseError}
use go_dispatch.Base.Outcome.{Ensures-bind, ok, Ensures-mono, Ensures, Outcome}
use go_dispatch.Base.Keys.{codes, Text}
use go_dispatch.Parser.{
  one_if, places, with_optionals, includes, wanted, fill_optional, normalize_fields, expand,
}
use go_dispatch.Base.Shared.{
  ltb, ◌==◌, if◌then◌else◌, Bool-cases, length, length-append, ℕ, suc, ◌+◌, ◌-◌, ◌≡◌, refl, ap, inl,
  inr, false, ◌&&◌, ◌||◌, List, [], ◌∷◌, arith,
}

expand-length :
    (options : ℕ) (slots : List (ℕ × Text)) (given : List Text)
    → length given ≡ wanted options slots
    → Ensures (λ out. length out ≡ length slots) (expand options slots given)
unfolding expand wanted
expand-length options [] given h = refl
expand-length options ((place, default) ∷ rest) [] h = elim (Bool-cases (includes options place)) [
  | inl on ↦ absurd (ground arith)
  | inr off ↦ rw off (
      Ensures-bind (λ out. length out ≡ length rest) _ (expand options rest []) _
        (expand-length options rest [] (ground arith)) (λ out e. ap suc e))
]
expand-length options ((place, default) ∷ rest) (field ∷ given) h =
    elim (Bool-cases (includes options place)) [
      | inl on ↦ rw on (
          Ensures-bind (λ out. length out ≡ length rest) _ (expand options rest given) _
            (expand-length options rest given (ground arith)) (λ out e. ap suc e))
      | inr off ↦ rw off (
          Ensures-bind (λ out. length out ≡ length rest) _ (expand options rest (field ∷ given)) _
            (expand-length options rest (field ∷ given) (ground arith)) (λ out e. ap suc e))
    ]

-- An optional field that is put in makes the fields one longer.
fill_optional-length :
    (options : ℕ) (given : List Text)
    → Ensures (λ out. length out ≡ length given + 1) (fill_optional options given)
unfolding fill_optional
fill_optional-length options given = elim (Bool-cases (includes options dow_optional)) [
  | inl a ↦ rw a (length-append given (codes "*" ∷ []))
  | inr a ↦ elim (Bool-cases (includes options second_optional)) [
    | inl b ↦ rw (a, b) (omega arith)
    | inr b ↦ rw (a, b) tt
  ]
]

module _ (options : ℕ) (given : List Text) (optionals max : ℕ) where
  -- The fields after the optional one was put in.
  abbrev filled : Outcome ParseError (List Text)
  filled =
      if ltb (max - optionals) max && length given == max - optionals
      then fill_optional options given
      else ok given

  filled-length :
      ltb 1 optionals ≡ false
      → (ltb (length given) (max - optionals) || ltb max (length given)) ≡ false
      → Ensures (λ out. length out ≡ max) filled
  filled-length few fits =
      elim (Bool-cases (ltb (max - optionals) max && length given == max - optionals)) [
        | inl short ↦ rw short (
            Ensures-mono (λ out. length out ≡ length given + 1) (λ out. length out ≡ max) _
              (fill_optional-length options given) (λ out e. ground arith))
        | inr full ↦ rw full (ground arith)
      ]

-- Whatever fields and options are given, `normalize_fields` ends with six fields or an error; it
-- indexes no slice out of range.
pub normalize_fields-length :
    (given : List Text) (options : ℕ)
    → Ensures (λ full. length full ≡ 6) (normalize_fields given options)
unfolding normalize_fields
normalize_fields-length given options = elim (Bool-cases (ltb 1 optionals)) [
  | inl a ↦ rw a tt
  | inr a ↦ elim (Bool-cases (ltb (length given) (max - optionals) || ltb max (length given))) [
    | inl b ↦ rw (a, b) tt
    | inr b ↦
        rw (a, b)
          (Ensures-bind (λ out. length out ≡ max) (λ full. length full ≡ 6) _ _
            (filled-length (with_optionals options) given optionals max a b)
            (λ full e. expand-length (with_optionals options) places full e))
  ]
]
  where
    max : ℕ
    max = wanted (with_optionals options) places

    optionals : ℕ
    optionals = one_if (includes options second_optional) + one_if (includes options dow_optional)
