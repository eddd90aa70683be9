-- ===== src/Lending/Repayment.antt =====
-- What the borrower owes at the end of the term.
use zephyr_chain.Base.{
  ℕ, zero, suc, ◌+◌, ◌-◌, ◌*◌, ◌/◌, ◌^◌, ◌≤◌, ◌<◌, ◌≡◌, refl, ◌∙◌, ap, ◌↔◌, false, ltb, ◌==◌, arith,
  ℤ, pos, negsuc, neg, scale, quo, plus, ok,
}
use native.Mathlib.Nat.{mul-le-mul_left}
use zephyr_chain.Lending.{Terms, repayment_due, settled, rate_fails}

-- The whole amounts `d` that a rate of `r` basis points on `p` stands for, rounded toward the principal.
abbrev pub Due : ℕ → ℤ → ℕ → Type 0
Due p (pos r) d = (10000 * d ≤ 10000 * p + p * r) × (10000 * p + p * r < 10000 * d + 10000)
Due p (negsuc r) d =
    (10000 * p ≤ 10000 * d + p * suc r) × (10000 * d + p * suc r < 10000 * p + 10000)

settled-pos : (x d : ℕ) → (settled (pos x) ≡ ok d) ↔ ((x ≡ d) × (0 < d) × (d < 2 ^ 64))
unfolding settled
settled-pos x d = ground arith

quo-neg : (q : ℕ) → quo (neg q) 10000 ≡ neg (q / 10000)
quo-neg zero = refl
quo-neg (suc q) = refl

plus-neg : (p q : ℕ) → q ≤ p → plus p (neg q) ≡ pos (p - q)
plus-neg p zero h = ap pos (omega arith)
plus-neg p (suc q) h = let enough : ltb p (suc q) ≡ false = ground arith in rw enough refl

-- A share below the whole is not more than the principal.
share-le : (p r : ℕ) → suc r ≤ 10000 → (p * suc r) / 10000 ≤ p
share-le p r h = let whole = mul-le-mul_left p h in omega (arith, whole)

repayment-negsuc :
    (p r : ℕ)
    → suc r ≤ 10000
    → plus p (quo (scale p (negsuc r)) 10000) ≡ pos (p - (p * suc r) / 10000)
repayment-negsuc p r h =
    ap (plus p) (quo-neg (p * suc r)) ∙ plus-neg p ((p * suc r) / 10000) (share-le p r h)

rounded-up :
    (p q d : ℕ)
    → (p + q / 10000 ≡ d) ↔ ((10000 * d ≤ 10000 * p + q) × (10000 * p + q < 10000 * d + 10000))
rounded-up p q d = (λ h. (omega arith, omega arith), λ h. omega (arith, h.0, h.1))

rounded-down :
    (p q d : ℕ)
    → q / 10000 ≤ p
    → (p - q / 10000 ≡ d) ↔ ((10000 * p ≤ 10000 * d + q) × (10000 * d + q < 10000 * p + 10000))
rounded-down p q d le = (λ h. (omega arith, omega arith), λ h. omega (arith, h.0, h.1))

rate_small : (r : ℕ) → rate_fails (negsuc r) ≡ false → suc r ≤ 10000
unfolding rate_fails
rate_small r h = ground arith

amount-eq-ok_iff :
    (p : ℕ) (r : ℤ) (d : ℕ)
    → rate_fails r ≡ false
    → (settled (plus p (quo (scale p r) 10000)) ≡ ok d) ↔ (Due p r d × (0 < d) × (d < 2 ^ 64))
amount-eq-ok_iff p (pos r) d rate =
    let s = settled-pos (p + (p * r) / 10000) d in
    let up = rounded-up p (p * r) d in
    (λ h. let (e, some, fits) = s.0 h in (up.0 e, some, fits), λ h. s.1 (up.1 h.0, h.1, h.2))
amount-eq-ok_iff p (negsuc r) d rate =
    let small = rate_small r rate in
    let s = settled-pos (p - (p * suc r) / 10000) d in
    let down = rounded-down p (p * suc r) d (share-le p r small) in
    rw (repayment-negsuc p r small)
      (λ h. let (e, some, fits) = s.0 h in (down.0 e, some, fits), λ h. s.1 (down.1 h.0, h.1, h.2))

-- With a positive principal and a rate within the limits, `RepaymentDue` answers `d` exactly if `d` is
-- the amount due rounded toward the principal, is not zero and fits a `uint64`.
pub repayment_due-eq-ok_iff :
    (t : Terms) (d : ℕ)
    → 0 < t.principal
    → rate_fails t.term_rate_bps ≡ false
    → (repayment_due t ≡ ok d) ↔ (Due t.principal t.term_rate_bps d × (0 < d) × (d < 2 ^ 64))
unfolding repayment_due
repayment_due-eq-ok_iff t d pos_principal rate =
    let nonzero : (t.principal == 0) ≡ false = ground arith in
    rw (nonzero, rate) (amount-eq-ok_iff t.principal t.term_rate_bps d rate)
