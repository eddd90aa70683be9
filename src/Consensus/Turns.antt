-- ===== src/Consensus/Turns.antt =====
-- Which validator `Proposer` of internal/v2/consensus/consensus.go answers: the turns of the validators
-- in the order of their identifiers.
use mathlib.Core.List.{Mem, mem-cons, not-mem-nil}
use mathlib.Core.List.Perm
use mathlib.Core.Path.{subst}
use mathlib.Core.Logic.Or
use mathlib.Core.Bool.{Bool-set}
use native.Mathlib.Nat.{add-mod}
use zephyr_chain.Base.{
  ℕ, ◌+◌, ◌-◌, ◌↔◌, ◌%◌, ◌^◌, ◌≤◌, ◌<◌, ◌≡◌, refl, sym, ◌∙◌, true, inl, inr, List, [], ◌∷◌, ltb,
  arith, Bool-cases, All, Result, ok,
}
use zephyr_chain.Codec.BigEndian.{IsU64}
use zephyr_chain.Types.{ValidatorId}
use zephyr_chain.Consensus.Validators.{
  Crypto, Validator, ValidatorSet, add_u64, sort_by_id, bytes_lt, pick, slot_of, validate_set,
  proposer,
}
use zephyr_chain.Consensus.Order.{
  Behind, Ascending, bytes_lt_irrefl, bytes_lt_asymm, sort_by_id-Ascending, power_where-sort,
}
use zephyr_chain.Consensus.Power.{power_where, sum_power, validate_set-Checked}
use zephyr_chain.Consensus.Proposers.{
  sort_by_id-perm, sum_power-sort, pick-here, pick-later, proposer-pick, proposer_total,
}

-- The power of the validators whose identifiers are below one.
abbrev pub power_before : ValidatorId → List Validator → ℕ
power_before id vs = power_where (λ x. bytes_lt x id) vs

power_before-Behind :
    (id : ValidatorId) (vs : List Validator) → Behind id vs → power_before id vs ≡ 0
unfolding power_where
power_before-Behind id [] h = refl
power_before-Behind id (v ∷ vs) h =
    rw (bytes_lt_asymm id v.id h.0) (omega (arith, power_before-Behind id vs h.1))

power_before-first :
    (v : Validator) (vs : List Validator) → Behind v.id vs → power_before v.id (v ∷ vs) ≡ 0
unfolding power_where
power_before-first v vs h = rw (bytes_lt_irrefl v.id) (omega (arith, power_before-Behind v.id vs h))

power_before-later :
    (id : ValidatorId) (v : Validator) (vs : List Validator)
    → bytes_lt v.id id ≡ true
    → power_before id (v ∷ vs) ≡ v.power + power_before id vs
unfolding power_where
power_before-later id v vs h = rw h refl

-- What the loop answers is one of the validators.
pick-All {ℓ} :
    (P : Validator → Type ℓ) (slot before : ℕ) (vs : List Validator) (v : Validator)
    → All P vs
    → pick slot before vs ≡ ok v
    → P v
unfolding pick
pick-All P slot before [] v h e = absurd cc
pick-All P slot before (w ∷ ws) v h e = elim (Bool-cases (ltb slot (add_u64 before w.power))) [
  | inl mine ↦ let same : w ≡ v = cc (rw mine at e) in subst P same h.0
  | inr later ↦ pick-All P slot (add_u64 before w.power) ws v h.1 (rw later at e)
]

-- The turn of a validator: the slots from the power of the validators before it on, as many as it has
-- power.
abbrev pub InTurn : ℕ → ℕ → Validator → List Validator → Type 0
InTurn slot before v vs =
    (before + power_before v.id vs ≤ slot) × (slot < before + power_before v.id vs + v.power)

pick-InTurn :
    (slot before : ℕ) (vs : List Validator) (v : Validator)
    → IsU64 (before + sum_power vs)
    → Ascending vs
    → before ≤ slot
    → pick slot before vs ≡ ok v
    → InTurn slot before v vs
unfolding sum_power
pick-InTurn slot before [] v fits up lo e = unfold pick in absurd cc
pick-InTurn slot before (w ∷ ws) v fits up lo e = elim (Bool-cases (ltb slot (before + w.power))) [
  | inl mine ↦
      let here = pick-here slot before w ws (omega arith) (ground arith) in
      let same : w ≡ v = cc (sym here ∙ e) in
      subst (λ (u : Validator). InTurn slot before u (w ∷ ws)) same
        (omega (arith, power_before-first w ws up.0), ground (arith, power_before-first w ws up.0))
  | inr later ↦
      let below = sym (pick-later slot before w ws (omega arith) (ground arith)) ∙ e in
      let above : bytes_lt w.id v.id ≡ true =
        pick-All (λ (u : Validator). bytes_lt w.id u.id ≡ true) slot _ ws v up.0 below in
      let turn = pick-InTurn slot (before + w.power) ws v (omega arith) up.1 (ground arith) below in
      omega (arith, power_before-later v.id w ws above)
]

Answer-set : IsSet (Result Validator)
Answer-set = hlevel

-- A member of the validators behind an identifier stands behind it.
Behind-Mem :
    (id : ValidatorId) (v : Validator) (vs : List Validator)
    → Behind id vs
    → Mem v vs
    → bytes_lt id v.id ≡ true
Behind-Mem id v [] h m = absurd (not-mem-nil m)
Behind-Mem id v (w ∷ ws) h m =
    Or.elim (Bool-set _ _) (mem-cons.0 m)
      (λ e. subst (λ (u : Validator). bytes_lt id u.id ≡ true) (sym e) h.0) (Behind-Mem id v ws h.1)

-- In its turn a validator is what the loop answers.
pick-of_InTurn :
    (slot before : ℕ) (vs : List Validator) (v : Validator)
    → IsU64 (before + sum_power vs)
    → Ascending vs
    → Mem v vs
    → InTurn slot before v vs
    → pick slot before vs ≡ ok v
unfolding sum_power
pick-of_InTurn slot before [] v fits up m turn = absurd (not-mem-nil m)
pick-of_InTurn slot before (w ∷ ws) v fits up m turn =
    Or.elim (Answer-set _ _) (mem-cons.0 m)
      (λ e.
        subst (λ (u : Validator). InTurn slot before u (w ∷ ws) → pick slot before (w ∷ ws) ≡ ok u)
          (sym e)
          (λ mine.
            pick-here slot before w ws (omega arith)
              (omega (arith, power_before-first w ws up.0, mine.1)))
          turn)
      (λ m'.
        let skip = power_before-later v.id w ws (Behind-Mem w.id v ws up.0 m') in
        pick-later slot before w ws (omega arith) (omega (arith, skip))
        ∙ pick-of_InTurn slot (before + w.power) ws v (omega arith) up.1 m' (omega (arith, skip)))

module _ (crypto : Crypto) where
  slot_of-small :
      (total height round : ℕ)
      → 0 < total
      → total ≤ 2 ^ 63
      → slot_of total height round ≡ (height - 1 + round) % total
  unfolding slot_of add_u64
  slot_of-small total height round pos small =
      let fits : ((height - 1) % total + round % total) % 2 ^ 64
          ≡ (height - 1) % total + round % total =
        omega arith in
      rw fits (sym (add-mod (height - 1) round total))

  -- For a set that passes `Validate`, with a total power of at most 2 ^ 63, and for a height from one
  -- on: `Proposer` answers a validator exactly if it is one of the set's and the height less one,
  -- plus the round, modulo the total power, is at least the power of the validators with smaller
  -- identifiers, and less than that with its own power added.
  pub proposer-eq-ok_iff :
      (s : ValidatorSet) (height round : ℕ) (v : Validator)
      → validate_set crypto s ≡ ok tt
      → sum_power s.validators ≤ 2 ^ 63
      → 1 ≤ height
      → (proposer crypto s height round ≡ ok v) ↔ (
          Mem v s.validators
          × (power_before v.id s.validators ≤ (height - 1 + round) % sum_power s.validators)
          × ((height - 1 + round) % sum_power s.validators
              < power_before v.id s.validators + v.power))
  proposer-eq-ok_iff s height round v h small pos =
      let (is, some_power) = validate_set-Checked crypto s h in
      let picked = proposer-pick crypto s height round h pos in
      let slot = slot_of-small (sum_power s.validators) height round some_power small in
      let ordered = sort_by_id-Ascending s.validators is.distinct in
      let fits : IsU64 (0 + sum_power (sort_by_id s.validators)) = rw sum_power-sort is.fits in
      let before = power_where-sort (λ x. bytes_lt x v.id) s.validators in
      (
        λ e.
            let (w, found, m) = proposer_total crypto s height round h pos in
            let same : w ≡ v = cc (sym found ∙ e) in
            let turn =
              pick-InTurn (slot_of (sum_power s.validators) height round) 0
                (sort_by_id s.validators) v fits ordered (omega arith) (sym picked ∙ e) in
            (
              subst (λ (u : Validator). Mem u s.validators) same m,
              omega (arith, slot, before, turn),
              omega (arith, slot, before, turn),
            ),
        λ turn.
            picked
            ∙ pick-of_InTurn (slot_of (sum_power s.validators) height round) 0
                (sort_by_id s.validators) v fits ordered
                ((Perm.mem_iff (sort_by_id-perm s.validators)).1 turn.0)
                (omega (arith, slot, before, turn.1), omega (arith, slot, before, turn.2)),
      )
