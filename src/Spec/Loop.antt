-- ===== src/Spec/Loop.antt =====
-- A loop of `Next`: it ends on the first time, from `t` on, that fits, or jumps with all times
-- skipped before the next larger unit.
use go_dispatch.Base.Outcome.{Ends-mono, Ends}
use go_dispatch.Calendar.Next.{IsNext}
use go_dispatch.Spec.{target, increment, Jump}
use go_dispatch.Calendar.Order.{key, IsTime}
use go_dispatch.Calendar.{Time}
use go_dispatch.Base.Shared.{
  ltb, if◌then◌else◌, Bool-cases, ℕ, zero, suc, ◌+◌, ◌≤◌, ◌<◌, ◌≡◌, refl, sym, ◌∙◌, ◌⊎◌, inl, inr,
  Bool, true, false, arith,
}

module _ (fits : Time → Bool) (reset advance : Time → Time) (wraps : Time → Bool) (index : Time → ℕ)
    (top : ℕ) (Same Parent Carry : Time → Time → Type 0) (Start : Time → Type 0) where
  -- What the loop uses of its unit: the time goes on to the start of the next one, whether the
  -- times fit depends on their unit only, and the units are counted within the parent.
  pub record IsUnit : Type 0 where
    pub goes_on : (t : Time) → IsTime t → IsNext Same Start t (advance (reset t))
    pub fits_same : (t v : Time) → Same t v → fits v ≡ fits t
    pub reset_start : (t : Time) → Start t → reset t ≡ t
    pub on :
        (t : Time)
        → IsTime t
        → ((wraps (advance (reset t)) ≡ true) × Carry t (advance (reset t)))
          ⊎ ((wraps (advance (reset t)) ≡ false)
              × Parent t (advance (reset t))
              × (index (advance (reset t)) ≡ index t + 1))
    pub index-le : (t : Time) → IsTime t → index t ≤ top
    pub same_parent : (t : Time) → Parent t t
    pub parent_trans : (t u v : Time) → Parent t u → Parent u v → Parent t v

  abbrev pub Skips : Time → Time → Type 0
  Skips t u = (v : Time) → IsTime v → key t ≤ key v → key v < key u → fits v ≡ false

  pub record Reached (t : Time) (added : Bool) (r : Time × Bool) : Type 0 where
    pub valid : IsTime r.0
    pub fitting : fits r.0 ≡ true
    pub ahead : key t ≤ key r.0
    pub skips : Skips t r.0
    pub parent : Parent t r.0
    pub how : ((r.0 ≡ t) × (r.1 ≡ added)) ⊎ ((r.1 ≡ true) × Start r.0)

  pub record Jumped (t : Time) (j : Jump) : Type 0 where
    pub valid : IsTime (target j)
    pub ahead : key t < key (target j)
    pub skips : Skips t (target j)
    pub at : Start (target j)
    pub last : Time
    pub last_valid : IsTime last
    pub parent : Parent t last
    pub carry : Carry last (target j)

  Skips-trans : (t u w : Time) → Skips t u → Skips u w → Skips t w
  Skips-trans t u w a b v k from to = elim (Bool-cases (ltb (key v) (key u))) [
    | inl before ↦ a v k from (ground arith)
    | inr after ↦ b v k (ground arith) to
  ]

  module _ (unit : IsUnit) where
    -- While the time does not fit, nothing fits before the next unit.
    unit-Skips : (t : Time) → IsTime t → fits t ≡ false → Skips t (advance (reset t))
    unit-Skips t h off v k from to =
        unit.fits_same t v ((unit.goes_on t h).between v k from to) ∙ off

    -- The rest of a loop, from the start of the next unit on.
    then-Reached :
        (t : Time) (added : Bool) (r : Time × Bool)
        → IsTime t
        → fits t ≡ false
        → Parent t (advance (reset t))
        → Reached (advance (reset t)) true r
        → Reached t added r
    then-Reached t added r h off same later =
        let n = unit.goes_on t h in
        record {
          valid = later.valid;
          fitting = later.fitting;
          ahead = omega (arith, n.ahead, later.ahead);
          skips = Skips-trans t (advance (reset t)) r.0 (unit-Skips t h off) later.skips;
          parent = unit.parent_trans t (advance (reset t)) r.0 same later.parent;
          how =
              inr
                (elim later.how [ inl (same', flag) ↦ (flag, rw same' n.at) | inr moved ↦ moved ]);
        }

    then-Jumped :
        (t : Time) (j : Jump)
        → IsTime t
        → fits t ≡ false
        → Parent t (advance (reset t))
        → Jumped (advance (reset t)) j
        → Jumped t j
    then-Jumped t j h off same later =
        let n = unit.goes_on t h in
        record {
          valid = later.valid;
          ahead = omega (arith, n.ahead, later.ahead);
          skips = Skips-trans t (advance (reset t)) (target j) (unit-Skips t h off) later.skips;
          at = later.at;
          last = later.last;
          last_valid = later.last_valid;
          parent = unit.parent_trans t (advance (reset t)) later.last same later.parent;
          carry = later.carry;
        }

    -- With a round for each unit that is left in the parent, the loop ends.
    pub increment-Ends :
        (fuel : ℕ) (t : Time) (added : Bool)
        → top < index t + fuel
        → IsTime t
        → (added ≡ true → (fits t ≡ true) ⊎ Start t)
        → Ends (Reached t added) (Jumped t) (increment fits reset advance wraps fuel t added)
    unfolding increment
    increment-Ends zero t added enough h ready = absurd (omega (arith, unit.index-le t h))
    increment-Ends (suc fuel) t added enough h ready = elim (Bool-cases (fits t)) [
      | inl yes_it_fits ↦ rw yes_it_fits (record {
        valid = h;
        fitting = yes_it_fits;
        ahead = omega arith;
        skips = λ v k from to. absurd (omega arith);
        parent = unit.same_parent t;
        how = inl (refl, refl);
      })
      | inr off ↦
          let n = unit.goes_on t h in
          rw (off, started off)
            (elim (unit.on t h) [
              | inl (wrapped, carried) ↦ rw wrapped (record {
                valid = n.valid;
                ahead = n.ahead;
                skips = unit-Skips t h off;
                at = n.at;
                last = t;
                last_valid = h;
                parent = unit.same_parent t;
                carry = carried;
              })
              | inr (inside, same, further) ↦ rw inside (
                  Ends-mono (Reached (advance (reset t)) true) (Reached t added)
                    (Jumped (advance (reset t))) (Jumped t) _
                    (increment-Ends fuel (advance (reset t)) true (omega arith) n.valid
                      (λ _. inr n.at))
                    (λ r later. then-Reached t added r h off same later)
                    (λ j later. then-Jumped t j h off same later))
            ])
    ]
      where
        started : fits t ≡ false → (if added then t else reset t) ≡ reset t
        started off = elim (Bool-cases added) [
          | inr fresh ↦ rw fresh refl
          | inl before ↦
              rw before (elim (ready before) [ inl on ↦ cc | inr at ↦ sym (unit.reset_start t at) ])
        ]
