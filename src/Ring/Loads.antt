-- ===== src/Ring/Loads.antt =====
-- The accounting of loads: the total against the sum over the hosts.
use go_dispatch.Ring.Removing.{remove-IsRemoved, Removed}
use go_dispatch.Base.Outcome.{Returns-inv, Returns}
use go_dispatch.Ring.Invariant.{IsRing}
use go_dispatch.Base.Keys.{Text, text_eq, text_beq, text_beq_iff}
use go_dispatch.Base.Maps.{Map, lookup, insert, erase, IsMap, erase_absent}
use go_dispatch.Base.Int.{parts_of_eq, ℤ, pos, negsuc, ◌+ℤ◌, ◌-ℤ◌, wrap64, wrap64_add, int_laws}
use go_dispatch.Ring.{
  remove, add_replicas, add, Consistent, Host, clear_loads, add_load, inc, done, update_load,
  reset_loads,
}
use go_dispatch.Base.Shared.{
  Bool-cases, Option-cases, ℕ, zero, suc, ◌+◌, ◌≡◌, refl, sym, ap, ◌∙◌, inl, inr, none, some, List,
  [], ◌∷◌, arith,
}

-- The sum of the hosts' loads, as an integer without bounds.
abbrev pub sum_loads : Map Text Host → ℤ
sum_loads [] = pos 0
sum_loads ((x, h) ∷ m) = h.load +ℤ sum_loads m

sum-insert :
    (x : Text) (h h' : Host) (m : Map Text Host)
    → lookup x m ≡ some h
    → sum_loads (insert x h' m) +ℤ h.load ≡ sum_loads m +ℤ h'.load
unfolding lookup insert
sum-insert x h h' [] e = ground arith
sum-insert x h h' ((y, k) ∷ m) e = elim (Bool-cases (text_beq y x)) [
  | inl same ↦
      let it : k ≡ h = ground arith in
      rw same (omega (int_laws, parts_of_eq (ap (λ (z : Host). z.load) it)))
  | inr other ↦ rw other (omega (int_laws, parts_of_eq (sum-insert x h h' m (ground arith))))
]

sum-insert_new :
    (x : Text) (h : Host) (m : Map Text Host)
    → lookup x m ≡ none
    → sum_loads (insert x h m) ≡ sum_loads m +ℤ h.load
unfolding lookup insert
sum-insert_new x h [] e = omega int_laws
sum-insert_new x h ((y, k) ∷ m) e = elim (Bool-cases (text_beq y x)) [
  | inl same ↦ ground arith
  | inr other ↦ rw other (omega (int_laws, parts_of_eq (sum-insert_new x h m (ground arith))))
]

pub sum-erase :
    (x : Text) (h : Host) (m : Map Text Host)
    → IsMap m
    → lookup x m ≡ some h
    → sum_loads m ≡ h.load +ℤ sum_loads (erase x m)
unfolding lookup erase
sum-erase x h [] d e = ground arith
sum-erase x h ((y, k) ∷ m) d e = elim (Bool-cases (text_beq y x)) [
  | inl same ↦
      let it : k ≡ h = ground arith in
      let mine : y ≡ x = (text_beq_iff y x).0 same in
      let alone : lookup x m ≡ none = ap (λ z. lookup z m) (sym mine) ∙ d.0 in
      rw (same, erase_absent x m alone) (ap (λ (z : Host). z.load +ℤ sum_loads m) it)
  | inr other ↦ rw other (omega (int_laws, parts_of_eq (sum-erase x h m d.1 (ground arith))))
]

sum-clear_loads : (m : Map Text Host) → sum_loads (clear_loads m) ≡ pos 0
unfolding clear_loads
sum-clear_loads [] = refl
sum-clear_loads ((x, h) ∷ m) = omega (int_laws, parts_of_eq (sum-clear_loads m))

-- The total is the sum of the loads, as an int64 holds it.
abbrev pub IsBalanced : Consistent → Type 0
IsBalanced c = c.total_load ≡ wrap64 (sum_loads c.load_map)

-- A host's load changes by `delta`, and is wrapped: so does the sum.
wrapped_change :
    (total sum sum' old delta : ℤ)
    → total ≡ wrap64 sum
    → sum' +ℤ old ≡ sum +ℤ wrap64 (old +ℤ delta)
    → wrap64 (total +ℤ delta) ≡ wrap64 sum'
wrapped_change total sum sum' old delta b e =
    let left : sum' ≡ wrap64 (old +ℤ delta) +ℤ (sum -ℤ old) = omega (int_laws, parts_of_eq e) in
    let both : old +ℤ delta +ℤ (sum -ℤ old) ≡ sum +ℤ delta = omega int_laws in
    ap (λ t. wrap64 (t +ℤ delta)) b
    ∙ wrap64_add sum delta
    ∙ ap wrap64 (sym both)
    ∙ sym (wrap64_add (old +ℤ delta) (sum -ℤ old))
    ∙ ap wrap64 (sym left)

add_load-IsBalanced :
    (c : Consistent) (x : Text) (delta : ℤ) → IsBalanced c → IsBalanced (add_load c x delta)
unfolding add_load
add_load-IsBalanced c x delta b = elim (Option-cases (lookup x c.load_map)) [
  | inl e ↦ rw (e, add_load) b
  | inr (h, e) ↦
      rw (e, add_load)
        (wrapped_change c.total_load (sum_loads c.load_map) _ h.load delta b
          (sum-insert x h (record h { load = wrap64 (h.load +ℤ delta) }) c.load_map e))
]

reset_loads-IsBalanced : (c : Consistent) → IsBalanced (reset_loads c)
unfolding reset_loads
reset_loads-IsBalanced c = rw (sum-clear_loads c.load_map)

-- A host's load is replaced.
replaced :
    (total sum sum' old load : ℤ)
    → total ≡ wrap64 sum
    → sum' +ℤ old ≡ sum +ℤ load
    → wrap64 (wrap64 (total -ℤ old) +ℤ load) ≡ wrap64 sum'
replaced total sum sum' old load b e =
    let minus : wrap64 sum -ℤ old ≡ wrap64 sum +ℤ (pos 0 -ℤ old) = omega int_laws in
    let whole : sum +ℤ (pos 0 -ℤ old) +ℤ load ≡ sum' = omega (int_laws, parts_of_eq e) in
    ap (λ t. wrap64 (wrap64 (t -ℤ old) +ℤ load)) b
    ∙ ap (λ t. wrap64 (wrap64 t +ℤ load)) minus
    ∙ ap (λ t. wrap64 (t +ℤ load)) (wrap64_add sum (pos 0 -ℤ old))
    ∙ wrap64_add (sum +ℤ (pos 0 -ℤ old)) load
    ∙ ap wrap64 whole

update_load-IsBalanced :
    (c : Consistent) (x : Text) (load : ℤ) → IsBalanced c → IsBalanced (update_load c x load)
unfolding update_load
update_load-IsBalanced c x load b = elim (Option-cases (lookup x c.load_map)) [
  | inl e ↦ rw (e, update_load) b
  | inr (h, e) ↦
      rw (e, update_load)
        (replaced c.total_load (sum_loads c.load_map) _ h.load load b
          (sum-insert x h (record h { load = load }) c.load_map e))
]

module _ (sum64 : Text → ℕ) where
  pub add_replicas_loads :
      (x : Text) (left i : ℕ) (c : Consistent)
      → ((add_replicas sum64 x left i c).load_map ≡ c.load_map)
        × ((add_replicas sum64 x left i c).total_load ≡ c.total_load)
  unfolding add_replicas
  add_replicas_loads x zero i c = (refl, refl)
  add_replicas_loads x (suc left) i c = add_replicas_loads x left (i + 1) _

  add-IsBalanced : (c : Consistent) (x : Text) → IsBalanced c → IsBalanced (add sum64 c x)
  unfolding add
  add-IsBalanced c x b = elim (Option-cases (lookup x c.load_map)) [
    | inr (h, e) ↦ rw (e, add) b
    | inl e ↦
        let host : Host = record { name = x; load = pos 0 } in
        let (same_map, same_total) =
          add_replicas_loads x c.replicas 0
            (record c { load_map = insert x (record { name = x; load = pos 0 }) c.load_map }) in
        let unchanged : sum_loads (insert x host c.load_map) ≡ sum_loads c.load_map =
          omega (int_laws, parts_of_eq (sum-insert_new x host c.load_map e)) in
        rw (e, add)
          (same_total
            ∙ b
            ∙ ap wrap64 (sym unchanged)
            ∙ ap (λ m. wrap64 (sum_loads m)) (sym same_map))
  ]

  -- The calls that change loads or hosts, but for `Remove`.
  pub data Call : Type 0 where
    call_add call_inc call_done : Text → Call
    call_update : Text → ℤ → Call
    call_reset : Call

  unfoldable pub perform : Consistent → Call → Consistent
  perform c (call_add x) = add sum64 c x
  perform c (call_inc x) = inc c x
  perform c (call_done x) = done c x
  perform c (call_update x load) = update_load c x load
  perform c call_reset = reset_loads c

  perform-IsBalanced : (c : Consistent) (call : Call) → IsBalanced c → IsBalanced (perform c call)
  unfolding perform inc done
  perform-IsBalanced c (call_add x) b = add-IsBalanced c x b
  perform-IsBalanced c (call_inc x) b = add_load-IsBalanced c x (pos 1) b
  perform-IsBalanced c (call_done x) b = add_load-IsBalanced c x (negsuc 0) b
  perform-IsBalanced c (call_update x load) b = update_load-IsBalanced c x load b
  perform-IsBalanced c call_reset b = reset_loads-IsBalanced c

  unfoldable pub performs : Consistent → List Call → Consistent
  unfolding perform
  performs c [] = c
  performs c (call ∷ calls) = performs (perform c call) calls

  -- From a ring whose total load is the sum of the hosts' loads, modulo 2^64 as an int64 holds
  -- it, and whatever hosts are added and whatever loads are counted, set and reset, in any order,
  -- the total load stays that sum.
  pub performs-IsBalanced :
      (c : Consistent) (calls : List Call) → IsBalanced c → IsBalanced (performs c calls)
  unfolding performs
  performs-IsBalanced c [] b = b
  performs-IsBalanced c (call ∷ calls) b =
      performs-IsBalanced (perform c call) calls (perform-IsBalanced c call b)

  -- `remove` forgets the load of a listed host and leaves it in the total: on a well-formed ring
  -- whose total is the sum over the hosts, it afterwards exceeds the sum by just that load,
  -- modulo 2^64.
  pub remove_unbalances :
      (c : Consistent) (x : Text) (h : Host)
      → IsRing sum64 c
      → lookup x c.load_map ≡ some h
      → IsBalanced c
      → Returns
          (λ (_, c'). c'.total_load ≡ wrap64 (h.load +ℤ sum_loads c'.load_map))
          (remove sum64 c x)
  remove_unbalances c x h ring e b =
      let (res, ends, (_, r)) =
        Returns-inv (Removed sum64 x c) _ (remove-IsRemoved sum64 x c ring) in
      rw ends (
        r.same_total
        ∙ b
        ∙ ap wrap64 (sum-erase x h c.load_map ring.spread.loads_map e)
        ∙ ap (λ m. wrap64 (h.load +ℤ sum_loads m)) (sym r.unlisted))
