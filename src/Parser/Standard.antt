-- ===== src/Parser/Standard.antt =====
-- cron/parser.go: ParseStandard, and how the parser of WithSeconds (cron/option.go) extends it.
use go_dispatch.Base.Strings.{fields_head, fields, has_prefix}
use go_dispatch.Fields.{wrong_count, ParseError}
use go_dispatch.Base.Outcome.{err, Outcome}
use go_dispatch.Base.Int.{ℤ}
use go_dispatch.Base.Outcome.{◌>>=◌}
use go_dispatch.Parser.Options.{second, minute, hour, dom, month, dow, descriptor}
use go_dispatch.Parser.{
  schedule_of, Schedule, parse_body, parse, includes, expand, fill_optional, wanted, with_optionals,
  normalize_fields,
}
use go_dispatch.Base.Keys.{codes, Text, text_eq, nat_eq}
use go_dispatch.Base.Shared.{
  length, ℕ, ◌+◌, ◌≡◌, refl, sym, ap, ◌∙◌, ◌≢◌, false, Option, List, [], ◌∷◌, ◌++◌, arith,
}

-- `standardParser`
abbrev pub standard_options : ℕ
standard_options = minute + hour + dom + month + dow + descriptor

-- The parser of `WithSeconds`.
abbrev pub seconds_options : ℕ
seconds_options = second + standard_options

-- What normalizeFields answers where the number of the fields is not the one that it wants.
abbrev pub miscount : ℕ → List Text → Outcome ParseError (List Text)
miscount n given = err (wrong_count n n (length given) given)

-- The answers on `given` of the standard parser and, with the field "0" in front, of the other.
SameFields : List Text → Type 0
SameFields given =
    let standard = normalize_fields given standard_options in
    let seconds = normalize_fields (codes "0" ∷ given) seconds_options in
    (length given ≡ 5 → standard ≡ seconds)
    × (length given ≢ 5
        → (standard ≡ miscount 5 given) × (seconds ≡ miscount 6 (codes "0" ∷ given)))

standard_fields : (given : List Text) → SameFields given
unfolding SameFields normalize_fields with_optionals wanted fill_optional expand includes
standard_fields [] = (λ h. absurd (omega arith), λ _. (refl, refl))
standard_fields (_ ∷ []) = (λ h. absurd (omega arith), λ _. (refl, refl))
standard_fields (_ ∷ _ ∷ []) = (λ h. absurd (omega arith), λ _. (refl, refl))
standard_fields (_ ∷ _ ∷ _ ∷ []) = (λ h. absurd (omega arith), λ _. (refl, refl))
standard_fields (_ ∷ _ ∷ _ ∷ _ ∷ []) = (λ h. absurd (omega arith), λ _. (refl, refl))
standard_fields (_ ∷ _ ∷ _ ∷ _ ∷ _ ∷ []) = (λ _. refl, λ h. absurd (h refl))
standard_fields (_ ∷ _ ∷ _ ∷ _ ∷ _ ∷ _ ∷ more) =
    (λ h. absurd (omega arith), λ _. (ground arith, ground arith))

module _ {ℓ} (Location : Type ℓ) (local : Location) (load_location : Text → Option Location)
    (parse_duration : Text → Option ℤ) where
  -- `ParseStandard`
  unfoldable pub parse_standard :
      Text → Outcome ParseError (Schedule Location local load_location parse_duration)
  parse_standard spec = parse Location local load_location parse_duration standard_options spec

  seconds_body :
      (spec : Text)
      → parse Location local load_location parse_duration seconds_options (codes "0 " ++ spec) ≡ (
          normalize_fields (codes "0" ∷ fields spec) seconds_options >>= λ full.
          schedule_of Location local load_location parse_duration full local)
  unfolding parse parse_body has_prefix
  seconds_body spec =
      ap
        (λ given. normalize_fields given seconds_options >>= λ full.
          schedule_of Location local load_location parse_duration full local)
        (fields_head 48 spec refl)

  -- A spec that is not empty and starts neither with a descriptor nor with a zone, and the same
  -- spec with the field "0" for the seconds in front of it: where the spec has five fields,
  -- ParseStandard gives for it what the parser of WithSeconds gives for the other, the same
  -- schedule or the same error. Else both answer with the error of a wrong number of fields, which
  -- says how many they want, 5 and 6, how many they found, and which.
  pub parse_standard-seconds :
      (c : ℕ) (spec : Text)
      → has_prefix (c ∷ spec) (codes "@") ≡ false
      → has_prefix (c ∷ spec) (codes "TZ=") ≡ false
      → has_prefix (c ∷ spec) (codes "CRON_TZ=") ≡ false
      → let given = fields (c ∷ spec) in
        let standard = parse_standard (c ∷ spec) in
        let seconds =
          parse Location local load_location parse_duration seconds_options
            (codes "0 " ++ c ∷ spec) in
        (length given ≡ 5 → standard ≡ seconds)
        × (length given ≢ 5
            → (standard ≡ err (wrong_count 5 5 (length given) given))
              × (seconds ≡ err (wrong_count 6 6 (length given + 1) (codes "0" ∷ given))))
  unfolding parse_standard parse parse_body SameFields
  parse_standard-seconds c spec no_descriptor no_zone no_cron_zone =
      let given = fields (c ∷ spec) in
      let read : Outcome ParseError (List Text) → Outcome ParseError _ =
        λ r. r >>= λ full. schedule_of Location local load_location parse_duration full local in
      let standard : parse_standard (c ∷ spec) ≡ read (normalize_fields given standard_options) =
        rw (no_zone, no_cron_zone, no_descriptor) refl in
      let (fine, wrong) = standard_fields given in
      (
        λ five. standard ∙ ap read (fine five) ∙ sym (seconds_body (c ∷ spec)),
        λ other.
            let (first, second) = wrong other in
            (
              standard ∙ ap read first,
              seconds_body (c ∷ spec)
                  ∙ ap read second
                  ∙ ap (λ n. err (wrong_count 6 6 n (codes "0" ∷ given))) (omega arith),
            ),
      )
