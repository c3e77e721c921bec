-- ===== src/Parser/Sound.antt =====
-- What `parse` answers with.
use go_dispatch.Parser.{spec_schedule, constant_delay}
use go_dispatch.Parser.Normalize.{normalize_fields-length}
use go_dispatch.Fields.BitRange.{get_bits-has}
use go_dispatch.Parser.Options.{descriptor}
use go_dispatch.Base.Outcome.{Ensures-bind, Ensures, panic}
use go_dispatch.Base.Bits.{bit-pow, has-bit}
use go_dispatch.Base.Int.{pos, ltb_ℤ, ℤ}
use go_dispatch.Fields.Range.{get_field-IsWithin, has-star, has-bit_or, IsWithin}
use go_dispatch.Parser.{
  normalize_fields, dow, includes, dom, parse, schedule_of, parse_body, extract_zone, parse_every,
  at_minute_zero, Schedule, parse_descriptor, one_second, every,
}
use go_dispatch.Base.Strings.{fields, has_prefix, index_byte}
use go_dispatch.Fields.{minutes, get_field, months, seconds, star_bit, hours, get_bits, all, Bounds}
use go_dispatch.Base.Keys.{codes, Text, text_beq}
use go_dispatch.Base.Shared.{
  Bool-cases, Option-cases, is_some, length, take, drop, ℕ, ◌+◌, ◌%◌, ◌^◌, ◌≤◌, ◌<◌, ◌≡◌, refl, inl,
  inr, Bool, true, ◌||◌, Option, none, some, List, [], ◌∷◌, arith,
}

all-IsWithin : (r : Bounds) → r.min ≤ r.max → r.max < 63 → IsWithin r (all r)
unfolding all
all-IsWithin r h small v there = ground (
  arith,
  has-bit_or (get_bits r.min r.max 1) star_bit v,
  get_bits-has r.min r.max 1 v (omega arith) (omega arith) small h,
  has-star v,
)

first-IsWithin : (r : Bounds) → r.min ≤ r.max → IsWithin r (2 ^ r.min)
first-IsWithin r h v there = ground (arith, has-bit (2 ^ r.min) v, bit-pow r.min v)

every-IsWhole : (duration : ℤ) → (one_second ≤ every duration) × (every duration % one_second ≡ 0)
unfolding every
every-IsWhole duration = elim (Bool-cases (ltb_ℤ duration (pos one_second))) [
  | inl short ↦ rw short (omega arith, omega arith)
  | inr long ↦ rw long (ground arith, ground arith)
]

-- A text has every byte of its prefix.
byte_of_prefix :
    (s prefix : Text) (b : ℕ)
    → has_prefix s prefix ≡ true
    → is_some (index_byte prefix b) ≡ true
    → is_some (index_byte s b) ≡ true
unfolding has_prefix index_byte
byte_of_prefix s [] b h e = absurd (ground arith)
byte_of_prefix [] (p ∷ prefix) b h e = absurd (ground arith)
byte_of_prefix (c ∷ s) (p ∷ prefix) b h e = ground (arith, byte_of_prefix s prefix b)

-- The spec names a time zone.
abbrev pub has_zone : Text → Bool
has_zone spec = has_prefix spec (codes "TZ=") || has_prefix spec (codes "CRON_TZ=")

zone_equals : (spec : Text) → has_zone spec ≡ true → is_some (index_byte spec b'=') ≡ true
unfolding index_byte
zone_equals spec h = elim (Bool-cases (has_prefix spec (codes "TZ="))) [
  | inl tz ↦ byte_of_prefix spec (codes "TZ=") b'=' tz refl
  | inr other ↦ byte_of_prefix spec (codes "CRON_TZ=") b'=' (ground arith) refl
]

module _ {ℓ} (Location : Type ℓ) (local : Location) (load_location : Text → Option Location)
    (parse_duration : Text → Option ℤ) where
  -- Each field of a schedule has bits within its bounds; a delay is a whole number of seconds and
  -- one at least.
  abbrev pub IsSound : Schedule Location local load_location parse_duration → Type 0
  IsSound (spec_schedule s) =
      IsWithin seconds s.second
      × IsWithin minutes s.minute
      × IsWithin hours s.hour
      × IsWithin dom s.dom
      × IsWithin months s.month
      × IsWithin dow s.dow
  IsSound (constant_delay delay) = (one_second ≤ delay) × (delay % one_second ≡ 0)

  at_minute_zero-IsSound :
      (hour day month weekday : ℕ) (loc : Location)
      → IsWithin hours hour
      → IsWithin dom day
      → IsWithin months month
      → IsWithin dow weekday
      → Ensures IsSound
          (at_minute_zero Location local load_location parse_duration hour day month weekday loc)
  unfolding at_minute_zero
  at_minute_zero-IsSound hour day month weekday loc h d m w =
      (first-IsWithin seconds (omega arith), first-IsWithin minutes (omega arith), h, d, m, w)

  parse_every-IsSound :
      (descriptor : Text)
      → Ensures IsSound (parse_every Location local load_location parse_duration descriptor)
  unfolding parse_every
  parse_every-IsSound descriptor = elim (Bool-cases (has_prefix descriptor (codes "@every "))) [
    | inl a ↦ elim (Option-cases (parse_duration (drop 7 descriptor))) [
      | inl b ↦ rw (a, b) tt
      | inr (duration, b) ↦ rw (a, b) (every-IsWhole duration)
    ]
    | inr a ↦ rw a tt
  ]

  parse_descriptor-IsSound :
      (d : Text) (loc : Location)
      → Ensures IsSound (parse_descriptor Location local load_location parse_duration d loc)
  unfolding parse_descriptor
  parse_descriptor-IsSound d loc =
      let first_hour = first-IsWithin hours (omega arith) in
      let first_day = first-IsWithin dom (omega arith) in
      let first_month = first-IsWithin months (omega arith) in
      let first_weekday = first-IsWithin dow (omega arith) in
      let any_hour = all-IsWithin hours (omega arith) (omega arith) in
      let any_day = all-IsWithin dom (omega arith) (omega arith) in
      let any_month = all-IsWithin months (omega arith) (omega arith) in
      let any_weekday = all-IsWithin dow (omega arith) (omega arith) in
      elim (Bool-cases (text_beq d (codes "@yearly") || text_beq d (codes "@annually"))) [
        | inl yearly ↦ rw yearly (
            at_minute_zero-IsSound (2 ^ hours.min) (2 ^ dom.min) (2 ^ months.min) (all dow) loc
              first_hour first_day first_month any_weekday)
        | inr yearly ↦ elim (Bool-cases (text_beq d (codes "@monthly"))) [
          | inl monthly ↦
              rw (yearly, monthly)
                (at_minute_zero-IsSound (2 ^ hours.min) (2 ^ dom.min) (all months) (all dow) loc
                  first_hour first_day any_month any_weekday)
          | inr monthly ↦ elim (Bool-cases (text_beq d (codes "@weekly"))) [
            | inl weekly ↦
                rw (yearly, monthly, weekly)
                  (at_minute_zero-IsSound (2 ^ hours.min) (all dom) (all months) (2 ^ dow.min) loc
                    first_hour any_day any_month first_weekday)
            | inr weekly ↦
                elim (Bool-cases (text_beq d (codes "@daily") || text_beq d (codes "@midnight"))) [
                  | inl daily ↦
                      rw (yearly, monthly, weekly, daily)
                        (at_minute_zero-IsSound (2 ^ hours.min) (all dom) (all months) (all dow) loc
                          first_hour any_day any_month any_weekday)
                  | inr daily ↦ elim (Bool-cases (text_beq d (codes "@hourly"))) [
                    | inl hourly ↦
                        rw (yearly, monthly, weekly, daily, hourly)
                          (at_minute_zero-IsSound (all hours) (all dom) (all months) (all dow) loc
                            any_hour any_day any_month any_weekday)
                    | inr hourly ↦
                        rw (yearly, monthly, weekly, daily, hourly) (parse_every-IsSound d)
                  ]
                ]
          ]
        ]
      ]

  schedule_of-IsSound :
      (full : List Text) (loc : Location)
      → length full ≡ 6
      → Ensures IsSound (schedule_of Location local load_location parse_duration full loc)
  unfolding schedule_of
  schedule_of-IsSound (f0 ∷ f1 ∷ f2 ∷ f3 ∷ f4 ∷ f5 ∷ []) loc h =
      Ensures-bind (IsWithin seconds) IsSound (get_field f0 seconds) _
        (get_field-IsWithin f0 seconds (omega arith))
        λ second s.
          Ensures-bind (IsWithin minutes) IsSound (get_field f1 minutes) _
            (get_field-IsWithin f1 minutes (omega arith))
            λ minute m.
              Ensures-bind (IsWithin hours) IsSound (get_field f2 hours) _
                (get_field-IsWithin f2 hours (omega arith))
                λ hour o.
                  Ensures-bind (IsWithin dom) IsSound (get_field f3 dom) _
                    (get_field-IsWithin f3 dom (omega arith))
                    λ day d.
                      Ensures-bind (IsWithin months) IsSound (get_field f4 months) _
                        (get_field-IsWithin f4 months (omega arith))
                        λ month n.
                          Ensures-bind (IsWithin dow) IsSound (get_field f5 dow) _
                            (get_field-IsWithin f5 dow (omega arith))
                            λ weekday w. (s, m, o, d, n, w)
  schedule_of-IsSound [] loc h = absurd (omega arith)
  schedule_of-IsSound (_ ∷ []) loc h = absurd (omega arith)
  schedule_of-IsSound (_ ∷ _ ∷ []) loc h = absurd (omega arith)
  schedule_of-IsSound (_ ∷ _ ∷ _ ∷ []) loc h = absurd (omega arith)
  schedule_of-IsSound (_ ∷ _ ∷ _ ∷ _ ∷ []) loc h = absurd (omega arith)
  schedule_of-IsSound (_ ∷ _ ∷ _ ∷ _ ∷ _ ∷ []) loc h = absurd (omega arith)
  schedule_of-IsSound (_ ∷ _ ∷ _ ∷ _ ∷ _ ∷ _ ∷ _ ∷ more) loc h = absurd (omega arith)

  parse_body-IsSound :
      (options : ℕ) (loc : Location) (spec : Text)
      → Ensures IsSound (parse_body Location local load_location parse_duration options (loc, spec))
  unfolding parse_body
  parse_body-IsSound options loc spec = elim (Bool-cases (has_prefix spec (codes "@"))) [
    | inl named ↦ elim (Bool-cases (includes options descriptor)) [
      | inl on ↦ rw (named, on) (parse_descriptor-IsSound spec loc)
      | inr off ↦ rw (named, off) tt
    ]
    | inr plain ↦ rw plain (
        Ensures-bind (λ full. length full ≡ 6) IsSound (normalize_fields (fields spec) options) _
          (normalize_fields-length (fields spec) options)
          (λ full e. schedule_of-IsSound full loc e))
  ]

  -- With a blank behind it the zone is read, or the zone database does not know it.
  extract_zone-ends :
      (spec : Text)
      → has_zone spec ≡ true
      → is_some (index_byte spec 32) ≡ true
      → Ensures (λ _. Unit) (extract_zone Location local load_location parse_duration spec)
  unfolding extract_zone
  extract_zone-ends spec zoned blank =
      let (i, here) = found 32 blank in
      let (eq, there) = found b'=' (zone_equals spec zoned) in
      elim (Option-cases (load_location (drop (eq + 1) (take i spec)))) [
        | inl unknown ↦ rw (here, there, unknown) tt
        | inr (loc, known) ↦ rw (here, there, known) tt
      ]
    where
      found : (b : ℕ) → is_some (index_byte spec b) ≡ true → (i : ℕ) × (index_byte spec b ≡ some i)
      found b h = elim (Option-cases (index_byte spec b)) [
        | inl e ↦ absurd (ground arith)
        | inr at ↦ at
      ]

  -- On every text `parse` ends with an error or with a schedule whose fields have bits within
  -- their bounds, or whose delay is a whole number of seconds and one at least. It never panics,
  -- if a text that starts with a time zone has a blank.
  pub parse-IsSound :
      (options : ℕ) (spec : Text)
      → (has_zone spec ≡ true → is_some (index_byte spec 32) ≡ true)
      → Ensures IsSound (parse Location local load_location parse_duration options spec)
  unfolding parse
  parse-IsSound options [] blank = tt
  parse-IsSound options (c ∷ rest) blank = elim (Bool-cases (has_zone (c ∷ rest))) [
    | inl zoned ↦ rw zoned (
        Ensures-bind (λ _. Unit) IsSound
          (extract_zone Location local load_location parse_duration (c ∷ rest)) _
          (extract_zone-ends (c ∷ rest) zoned (blank zoned))
          (λ (loc, spec) _. parse_body-IsSound options loc spec))
    | inr plain ↦ rw plain (parse_body-IsSound options local (c ∷ rest))
  ]

  -- A text that starts with a time zone and has no blank makes `parse` panic.
  pub parse_zone_panics :
      (options : ℕ) (spec : Text)
      → has_zone spec ≡ true
      → index_byte spec 32 ≡ none
      → parse Location local load_location parse_duration options spec ≡ panic
  unfolding parse extract_zone has_prefix
  parse_zone_panics options [] zoned none_found = absurd (ground arith)
  parse_zone_panics options (c ∷ rest) zoned none_found = rw (zoned, none_found) refl
