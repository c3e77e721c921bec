-- ===== src/Base/Keys.antt =====
-- Keys of maps: a type with a Boolean equality that decides its equality. Texts are byte lists.
use Prim.Native.Char.{code}
use Prim.Native.String.{String}
use go_dispatch.Base.Shared.{
  ℕ, zero, suc, ◌+◌, ◌/◌, ◌%◌, ◌≡◌, refl, ◌↔◌, Bool, true, false, ◌&&◌, List, [], ◌∷◌, arith, ltb,
  ◌==◌, if◌then◌else◌, ==_iff,
}

pub record Eq {ℓ} (A : Type ℓ) : Type ℓ where
  pub beq : A → A → Bool
  pub beq_iff : (a b : A) → (beq a b ≡ true) ↔ (a ≡ b)

instance abbrev pub nat_eq : Eq ℕ
nat_eq = record { beq = λ a b. a == b; beq_iff = ==_iff }

-- A Go string: its bytes.
abbrev pub Text : Type 0
Text = List ℕ

-- The bytes of an ASCII literal.
abbrev pub codes : String → Text
codes String.[] = []
codes (String.◌∷◌ c s) = code c ∷ codes s

unfoldable pub text_beq : Text → Text → Bool
text_beq [] [] = true
text_beq [] (y ∷ ys) = false
text_beq (x ∷ xs) [] = false
text_beq (x ∷ xs) (y ∷ ys) = x == y && text_beq xs ys

text_beq_sound : (xs ys : Text) → text_beq xs ys ≡ true → xs ≡ ys
unfolding text_beq
text_beq_sound [] [] h = refl
text_beq_sound [] (y ∷ ys) h = ground arith
text_beq_sound (x ∷ xs) [] h = ground arith
text_beq_sound (x ∷ xs) (y ∷ ys) h = ground (arith, text_beq_sound xs ys)

pub text_beq_refl : (xs : Text) → text_beq xs xs ≡ true
unfolding text_beq
text_beq_refl [] = refl
text_beq_refl (x ∷ xs) = ground (arith, text_beq_refl xs)

pub text_beq_iff : (xs ys : Text) → (text_beq xs ys ≡ true) ↔ (xs ≡ ys)
text_beq_iff xs ys = (text_beq_sound xs ys, λ e. rw e (text_beq_refl ys))

instance abbrev pub text_eq : Eq Text
text_eq = record { beq = text_beq; beq_iff = text_beq_iff }

-- `s < t` of Go strings: byte by byte, and a proper prefix comes first.
unfoldable pub text_lt : Text → Text → Bool
text_lt s [] = false
text_lt [] (y ∷ ys) = true
text_lt (x ∷ xs) (y ∷ ys) =
    let later = text_lt xs ys in if ltb x y then true else if x == y then later else false

-- The digits of `n` in front of `rest`; the fuel only has to pass the number of digits.
decimal_onto : ℕ → ℕ → Text → Text
decimal_onto zero n rest = rest
decimal_onto (suc fuel) n rest =
    let grown : Text = (b'0' + n % 10) ∷ rest in
    let higher = decimal_onto fuel (n / 10) grown in if ltb n 10 then grown else higher

-- The verb `%d` of `fmt.Sprintf`, at a number that is not negative.
unfoldable pub decimal : ℕ → Text
unfolding decimal_onto
decimal n = decimal_onto (suc n) n []
