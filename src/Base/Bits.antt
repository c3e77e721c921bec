-- ===== src/Base/Bits.antt =====
-- Bit sets in machine words: one bit at a time.
use Prim.Native.Nat.{min, max, bit_and, bit_or, digits, bitwise, bit_and-bitwise, bit_or-bitwise}
use native.Mathlib.Nat.{pow-suc, le_refl}
use go_dispatch.Base.Shared.{
  ltb, leb, ◌==◌, if◌then◌else◌, ℕ, zero, suc, ◌+◌, ◌-◌, ◌*◌, ◌/◌, ◌%◌, ◌^◌, ◌≤◌, ◌<◌, ◌≡◌, refl,
  ap, ◌∙◌, Bool, ◌&&◌, arith,
}

-- The bit of weight 2^v.
abbrev pub bit : ℕ → ℕ → ℕ
bit n zero = n % 2
bit n (suc v) = bit (n / 2) v

module _ (z : ℕ → ℕ) (f : ℕ → ℕ → ℕ) where
  -- More fuel than the first word needs changes nothing.
  digits_settled : (m n a b : ℕ) → a ≤ m → a ≤ n → digits z f m a b ≡ digits z f n a b
  digits_settled zero zero a b p q = refl
  digits_settled zero (suc n) zero b p q = refl
  digits_settled zero (suc n) (suc a) b p q = absurd (omega arith)
  digits_settled (suc m) zero zero b p q = refl
  digits_settled (suc m) zero (suc a) b p q = absurd (omega arith)
  digits_settled (suc m) (suc n) zero b p q = refl
  digits_settled (suc m) (suc n) (suc a) b p q =
      rw (digits_settled m n (suc a / 2) (b / 2) (omega arith) (omega arith))

  bitwise_digit :
      (a b : ℕ)
      → bitwise z f (suc a) b ≡ bitwise z f (suc a / 2) (b / 2) * 2 + f (suc a % 2) (b % 2)
  bitwise_digit a b =
      omega (arith, digits_settled a (suc a / 2) (suc a / 2) (b / 2) (omega arith) (le_refl _))

bit_or_digit : (a b : ℕ) → bit_or a b ≡ bit_or (a / 2) (b / 2) * 2 + max (a % 2) (b % 2)
bit_or_digit zero b = simp bit_or-bitwise (omega arith)
bit_or_digit (suc a) b = simp bit_or-bitwise (bitwise_digit (λ y. y) max a b)

bit_and_digit : (a b : ℕ) → bit_and a b ≡ bit_and (a / 2) (b / 2) * 2 + min (a % 2) (b % 2)
bit_and_digit zero b = simp bit_and-bitwise (omega arith)
bit_and_digit (suc a) b = simp bit_and-bitwise (bitwise_digit (λ y. 0) min a b)

pub bit-bit_or : (v a b : ℕ) → bit (bit_or a b) v ≡ max (bit a v) (bit b v)
bit-bit_or zero a b = omega (arith, bit_or_digit a b)
bit-bit_or (suc v) a b =
    let half : bit_or a b / 2 ≡ bit_or (a / 2) (b / 2) = omega (arith, bit_or_digit a b) in
    rw half (bit-bit_or v (a / 2) (b / 2))

pub bit-bit_and : (v a b : ℕ) → bit (bit_and a b) v ≡ min (bit a v) (bit b v)
bit-bit_and zero a b = omega (arith, bit_and_digit a b)
bit-bit_and (suc v) a b =
    let half : bit_and a b / 2 ≡ bit_and (a / 2) (b / 2) = omega (arith, bit_and_digit a b) in
    rw half (bit-bit_and v (a / 2) (b / 2))

pub pow_pos : (k : ℕ) → 0 < 2 ^ k
pow_pos zero = omega arith
pow_pos (suc k) = simp pow-suc (omega (arith, pow_pos k))

pub pow_mono : (j k : ℕ) → j ≤ k → 2 ^ j ≤ 2 ^ k
pow_mono zero k h = omega (arith, pow_pos k)
pow_mono (suc j) zero h = absurd (omega arith)
pow_mono (suc j) (suc k) h = simp pow-suc (omega (arith, pow_mono j k (omega arith)))

bit-zero : (v : ℕ) → bit 0 v ≡ 0
bit-zero zero = refl
bit-zero (suc v) = bit-zero v

pub bit-pow : (k v : ℕ) → bit (2 ^ k) v ≡ (if k == v then 1 else 0)
bit-pow zero zero = refl
bit-pow zero (suc v) = bit-zero v ∙ ground arith
bit-pow (suc k) zero = simp pow-suc (ground arith)
bit-pow (suc k) (suc v) =
    let half : 2 ^ suc k / 2 ≡ 2 ^ k = simp pow-suc (omega arith) in
    rw half (bit-pow k v ∙ ground arith)

-- The bits from `m` up to, but not including, `n`.
pub bit_interval :
    (m n v : ℕ) → m ≤ n → bit (2 ^ n - 2 ^ m) v ≡ (if leb m v && ltb v n then 1 else 0)
bit_interval zero zero v h = bit-zero v ∙ ground arith
bit_interval (suc m) zero v h = absurd (omega arith)
bit_interval zero (suc n) zero h = simp pow-suc (ground (arith, pow_pos n))
bit_interval zero (suc n) (suc v) h =
    let half : (2 ^ suc n - 2 ^ 0) / 2 ≡ 2 ^ n - 2 ^ 0 = simp pow-suc (omega (arith, pow_pos n)) in
    rw half (bit_interval zero n v (omega arith) ∙ ground arith)
bit_interval (suc m) (suc n) zero h = simp pow-suc (ground arith)
bit_interval (suc m) (suc n) (suc v) h =
    let half : (2 ^ suc n - 2 ^ suc m) / 2 ≡ 2 ^ n - 2 ^ m =
      simp pow-suc (omega (arith, pow_mono m n (omega arith))) in
    rw half (bit_interval m n v (omega arith) ∙ ground arith)

zero-bit_and : (b : ℕ) → bit_and 0 b ≡ 0
zero-bit_and b = bit_and-bitwise 0 b

bit_and_pow : (v n : ℕ) → bit_and (2 ^ v) n ≡ bit n v * 2 ^ v
bit_and_pow zero n = omega (arith, bit_and_digit 1 n, zero-bit_and (n / 2))
bit_and_pow (suc v) n =
    let double : 2 ^ suc v ≡ 2 ^ v * 2 = pow-suc 2 v in
    let half : 2 ^ suc v / 2 ≡ 2 ^ v = omega (arith, double) in
    let rest : bit_and (2 ^ suc v / 2) (n / 2) ≡ bit (n / 2) v * 2 ^ v =
      rw half (bit_and_pow v (n / 2)) in
    omega
      (arith, bit_and_digit (2 ^ suc v) n, rest, double, ap (λ (t : ℕ). bit (n / 2) v * t) double)

pub bit-lt : (v n : ℕ) → bit n v < 2
bit-lt zero n = omega arith
bit-lt (suc v) n = bit-lt v (n / 2)

-- `1 << v & bits > 0`
unfoldable pub has : ℕ → ℕ → Bool
has bits v = ltb 0 (bit_and (2 ^ v) bits)

pub has-bit : (bits v : ℕ) → has bits v ≡ (bit bits v == 1)
unfolding has
has-bit bits v = one_bit (bit bits v) (2 ^ v) (bit_and_pow v bits) (bit-lt v bits) (pow_pos v)
  where
    one_bit :
        (b p : ℕ)
        → bit_and (2 ^ v) bits ≡ b * p
        → b < 2
        → 0 < p
        → ltb 0 (bit_and (2 ^ v) bits) ≡ (b == 1)
    one_bit zero p e h q = ground arith
    one_bit (suc zero) p e h q = ground arith
    one_bit (suc (suc b)) p e h q = absurd (omega arith)
