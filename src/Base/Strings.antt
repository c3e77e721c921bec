-- ===== src/Base/Strings.antt =====
-- What the source uses of Go's `strings` and `strconv`, on texts of ASCII bytes.
use go_dispatch.Base.Keys.{Text}
use go_dispatch.Base.Int.{ℤ, pos, sub_ℕ}
use mathlib.Core.Option
use mathlib.Core.List.{reverse}
use go_dispatch.Base.Shared.{
  leb, ◌==◌, if◌then◌else◌, Option-cases, ℕ, suc, ◌+◌, ◌-◌, ◌*◌, ◌^◌, ◌≤◌, ◌<◌, ◌≡◌, refl, inl, inr,
  Bool, true, false, ◌&&◌, ◌||◌, Option, none, some, List, [], ◌∷◌, map, arith,
}

-- The parts of `s` between the bytes that pass the test, empty parts included.
split_where : (ℕ → Bool) → Text → Text × List Text
split_where test [] = ([], [])
split_where test (c ∷ s) =
    let (part, parts) = split_where test s in
    if test c then ([], part ∷ parts) else (c ∷ part, parts)

abbrev parts_of : Text × List Text → List Text
parts_of (part, parts) = part ∷ parts

-- `strings.Split` at a separator of one byte.
unfoldable pub split : Text → ℕ → List Text
unfolding split_where
split s sep = parts_of (split_where (λ c. c == sep) s)

drop_empty : List Text → List Text
drop_empty [] = []
drop_empty ([] ∷ parts) = drop_empty parts
drop_empty ((c ∷ part) ∷ parts) = (c ∷ part) ∷ drop_empty parts

-- `strings.FieldsFunc`
unfoldable pub fields_func : Text → (ℕ → Bool) → List Text
unfolding split_where drop_empty
fields_func s test = drop_empty (parts_of (split_where test s))

abbrev pub is_space : ℕ → Bool
is_space c = c == 32 || (leb 9 c && leb c 13)

-- `strings.Fields`
unfoldable pub fields : Text → List Text
unfolding fields_func
fields s = fields_func s is_space

-- A field of one byte and the blank behind it.
pub fields_head :
    (c : ℕ) (s : Text) → is_space c ≡ false → fields (c ∷ 32 ∷ s) ≡ (c ∷ []) ∷ fields s
unfolding fields fields_func split_where drop_empty
fields_head c s printed = rw printed refl

unfoldable pub has_prefix : Text → Text → Bool
has_prefix s [] = true
has_prefix [] (p ∷ prefix) = false
has_prefix (c ∷ s) (p ∷ prefix) = c == p && has_prefix s prefix

-- `strings.Index` of a byte, with `none` for -1.
unfoldable pub index_byte : Text → ℕ → Option ℕ
index_byte [] b = none
index_byte (c ∷ s) b =
    let later = Option.map suc (index_byte s b) in if c == b then some 0 else later

trim_left : Text → Text
trim_left [] = []
trim_left (c ∷ s) = let rest = trim_left s in if is_space c then rest else c ∷ s

-- `strings.TrimSpace`
unfoldable pub trim_space : Text → Text
unfolding trim_left
trim_space s = reverse (trim_left (reverse (trim_left s)))

abbrev lower_byte : ℕ → ℕ
lower_byte c = if leb b'A' c && leb c b'Z' then c + 32 else c

-- `strings.ToLower`
unfoldable pub to_lower : Text → Text
to_lower s = map lower_byte s

abbrev pub is_digit : ℕ → Bool
is_digit c = leb b'0' c && leb c b'9'

-- The number that the digits go on to make after `acc`.
unfoldable pub digits_from : ℕ → Text → Option ℕ
digits_from acc [] = some acc
digits_from acc (c ∷ s) =
    let rest = digits_from (acc * 10 + (c - b'0')) s in if is_digit c then rest else none

-- A number with at least one digit that is at most `top`.
unsigned : ℕ → Text → Option ℕ
unsigned top [] = none
unsigned top (c ∷ s) = elim (digits_from 0 (c ∷ s)) [
  | none ↦ none
  | some n ↦ if leb n top then some n else none
]

-- `strconv.Atoi` on 64 bits: an optional sign and decimal digits; `none` for its errors.
unfoldable pub atoi : Text → Option ℤ
unfolding unsigned digits_from
atoi [] = none
atoi (c ∷ s) =
    if c == b'-'
    then Option.map (λ n. sub_ℕ 0 n) (unsigned (2 ^ 63) s)
    else if c == b'+'
    then Option.map pos (unsigned (2 ^ 63 - 1) s)
    else Option.map pos (unsigned (2 ^ 63 - 1) (c ∷ s))

unsigned-le : (top : ℕ) (s : Text) (n : ℕ) → unsigned top s ≡ some n → n ≤ top
unfolding unsigned
unsigned-le top [] n h = ground arith
unsigned-le top (c ∷ s) n h = elim (Option-cases (digits_from 0 (c ∷ s))) [
  | inl e ↦ ground arith
  | inr (k, e) ↦ ground arith
]

-- A number that `atoi` reads without a minus fits a 64-bit int.
pub atoi-lt : (s : Text) (n : ℕ) → atoi s ≡ some (pos n) → n < 2 ^ 63
unfolding atoi
atoi-lt [] n h = ground arith
atoi-lt (c ∷ s) n h =
    ground (arith, unsigned-le (2 ^ 63 - 1) s n, unsigned-le (2 ^ 63 - 1) (c ∷ s) n)
