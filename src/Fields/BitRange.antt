-- ===== src/Fields/BitRange.antt =====
-- `get_bits`: which bits of the word are set, by the shifts and by the loop alike.
use Prim.Native.Nat.{bit_or, max}
use native.Mathlib.Nat.{pow-suc, mod-eq_of_lt, mod-eq-sub-mod}
use go_dispatch.Base.Bits.{
  bit, bit-bit_or, bit-bit_and, bit-pow, bit_interval, pow_pos, pow_mono, has, has-bit,
}
use go_dispatch.Fields.{bits_loop, get_bits, shl64, not64, max_uint64}
use go_dispatch.Base.Shared.{
  leb, ◌==◌, if◌then◌else◌, Bool-cases, ℕ, zero, suc, ◌+◌, ◌-◌, ◌%◌, ◌^◌, ◌≤◌, ◌<◌, ◌≡◌, refl, ap,
  ◌∙◌, inl, inr, Bool, ◌&&◌, arith,
}

-- `v` is one of `i`, `i + step`, `i + 2 * step`, … and not above `top`.
abbrev pub on_step : ℕ → ℕ → ℕ → ℕ → Bool
on_step i top step v = leb i v && leb v top && ((v - i) % step == 0)

pow_lt : (i k : ℕ) → i < k → 2 ^ i < 2 ^ k
pow_lt i k h = omega (arith, pow_mono (suc i) k h, pow-suc 2 i, pow_pos i)

shl_one : (i : ℕ) → i < 64 → shl64 1 i ≡ 2 ^ i
shl_one i h = omega (arith, pow_lt i 64 h)

mod_zero : (step : ℕ) → 0 < step → 0 % step ≡ 0
mod_zero step h = mod-eq_of_lt h

-- The set bits from `i` on are `i` itself and those from `i + step` on.
on_step_next :
    (i top step v : ℕ)
    → 0 < step
    → i ≤ top
    → (if on_step i top step v then 1 else 0)
      ≡ max (if i == v then 1 else 0) (if on_step (i + step) top step v then 1 else 0)
on_step_next i top step v pos h = elim (Bool-cases (leb (i + step) v)) [
  | inl far ↦
      let gap : v - i - step ≡ v - (i + step) = omega arith in
      let reach : step ≤ v - i = ground arith in
      let turn : (v - i) % step ≡ (v - (i + step)) % step =
        mod-eq-sub-mod reach ∙ ap (λ (t : ℕ). t % step) gap in
      ground arith
  | inr near ↦
      let short : v - i < step = ground arith in
      let small : (v - i) % step ≡ v - i = mod-eq_of_lt short in ground arith
]

bits_loop-bit :
    (fuel bits i top step v : ℕ)
    → 0 < step
    → step < 2 ^ 63
    → top < 63
    → top < i + fuel
    → bit (bits_loop fuel bits i top step) v
      ≡ max (bit bits v) (if on_step i top step v then 1 else 0)
unfolding bits_loop
bits_loop-bit zero bits i top step v pos small h f = ground arith
bits_loop-bit (suc fuel) bits i top step v pos small h f = elim (Bool-cases (leb i top)) [
  | inr past ↦ rw past (ground arith)
  | inl inside ↦
      let below : i ≤ top = ground arith in
      let sum : (i + step) % 2 ^ 64 ≡ i + step = omega arith in
      rw (inside, sum, shl_one i (omega arith))
        (bits_loop-bit fuel (bit_or bits (2 ^ i)) (i + step) top step v pos small h (omega arith)
          ∙ ground
              (arith, bit-bit_or v bits (2 ^ i), bit-pow i v, on_step_next i top step v pos below))
]

pub bit-empty : (v : ℕ) → bit 0 v ≡ 0
bit-empty zero = refl
bit-empty (suc v) = bit-empty v

-- The shifts make the words of the bits up to `top` and from `lo` on.
low_mask : (top : ℕ) → top < 63 → not64 (shl64 max_uint64 (top + 1)) ≡ 2 ^ (top + 1) - 2 ^ 0
low_mask top h = omega (arith, pow_lt (top + 1) 64 (omega arith), pow_pos (top + 1))

high_mask : (lo : ℕ) → lo < 64 → shl64 max_uint64 lo ≡ 2 ^ 64 - 2 ^ lo
high_mask lo h = omega (arith, pow_lt lo 64 h, pow_pos lo)

get_bits-bit :
    (lo top step v : ℕ)
    → 0 < step
    → step < 2 ^ 63
    → top < 63
    → lo ≤ top
    → bit (get_bits lo top step) v ≡ (if on_step lo top step v then 1 else 0)
unfolding get_bits
get_bits-bit lo top step v pos small h r = elim (Bool-cases (step == 1)) [
  | inl one ↦
      let unit : step ≡ 1 = ground arith in
      rw (one, low_mask top h, high_mask lo (omega arith))
        (ground (
          arith,
          bit-bit_and v (2 ^ (top + 1) - 2 ^ 0) (2 ^ 64 - 2 ^ lo),
          bit_interval 0 (top + 1) v (omega arith),
          bit_interval lo 64 v (omega arith),
        ))
  | inr more ↦ rw more (
      bits_loop-bit (top + 1) 0 lo top step v pos small h (omega arith)
      ∙ ground (arith, bit-empty v))
]

-- For a range from `lo` to `top` that lies below bit 63 and any positive step below 2^63, both
-- ways of `get_bits`, the shifts and the loop, set exactly the bits from `lo` to `top` at
-- distance of a multiple of `step` from `lo`.
pub get_bits-has :
    (lo top step v : ℕ)
    → 0 < step
    → step < 2 ^ 63
    → top < 63
    → lo ≤ top
    → has (get_bits lo top step) v ≡ on_step lo top step v
get_bits-has lo top step v pos small h r =
    ground (arith, has-bit (get_bits lo top step) v, get_bits-bit lo top step v pos small h r)
