-- ===== src/Execution/Settles.antt =====
-- The third loop of `executeTransfer`: what it has compared when it ends.
use zephyr_chain.Base.{
  ℕ, ◌+◌, ◌-◌, ◌≡◌, ◌≢◌, refl, sym, ◌∙◌, ap, Bool, true, false, not, Option, none, some, [], ◌∷◌,
  ltb, ◌==◌, ==_iff, if◌then◌else◌, bytes_eq, Keyed_Bytes, lookup, erase, lookup-erase_ne,
  lookup-here, lookup-away, key-cases, inl, inr, Bool-cases, ok, err, >>=-eq-ok, conservation,
  token_policy, amount_overflow, arith,
}
use mathlib.Core.Path.{subst}
use zephyr_chain.Codec.BigEndian.{max_u64}
use zephyr_chain.Types.{TokenId}
use zephyr_chain.Execution.{
  Engine, Totals, Definitions, total, total_of, transferable, required_total, settle,
}
use zephyr_chain.Execution.Totals.{fail_if-then}

module _ (e : Engine) (fee : ℕ) (definitions : Definitions) where
  -- The fee is owed in the native token.
  abbrev pub fee_in : TokenId → ℕ
  fee_in token = if bytes_eq token e.native_token then fee else 0

  required-total :
      (outputs : Totals) (token : TokenId) (required : ℕ)
      → required_total e fee definitions outputs token ≡ ok required
      → required ≡ total outputs token + fee_in token
  unfolding required_total
  required-total outputs token required h = elim (Bool-cases (bytes_eq token e.native_token)) [
    | inl native ↦ rw native (paid (ltb (max_u64 - total outputs token) fee) (rw native at h))
    | inr other ↦ rw other (unpaid (transferable definitions token) (rw other at h))
  ]
    where
      paid :
          (b : Bool)
          → (if b then err amount_overflow else ok (total outputs token + fee)) ≡ ok required
          → required ≡ total outputs token + fee
      paid true k = absurd cc
      paid false k = cc

      unpaid :
          (b : Bool)
          → (if b then ok (total outputs token) else err token_policy) ≡ ok required
          → required ≡ total outputs token + 0
      unpaid false k = absurd cc
      unpaid true k = sym (inside k) ∙ omega arith
        where
          inside : {m n : ℕ} → ok m ≡ ok n → m ≡ n
          inside k = cc

  -- What the loop says of a token, by its input total.
  unfoldable pub Settled : TokenId → Totals → Totals → Option ℕ → Type 0
  Settled token outputs left none = lookup left token ≡ lookup outputs token
  Settled token outputs left (some amount) = amount ≡ total outputs token + fee_in token

  Settled-erase :
      (token k : TokenId) (outputs left : Totals) (o : Option ℕ)
      → k ≢ token
      → Settled token (erase outputs k) left o
      → Settled token outputs left o
  unfolding Settled
  Settled-erase token k outputs left none ne h = h ∙ lookup-erase_ne outputs k token ne
  Settled-erase token k outputs left (some amount) ne h =
      h ∙ ap (λ o. total_of o + fee_in token) (lookup-erase_ne outputs k token ne)

  pub settle-Settled :
      (inputs outputs left : Totals) (token : TokenId)
      → settle e fee definitions inputs outputs ≡ ok left
      → Settled token outputs left (lookup inputs token)
  unfolding settle Settled
  settle-Settled [] outputs left token h = ap (λ m. lookup m token) (sym (same h))
    where
      same : {a b : Totals} → ok a ≡ ok b → a ≡ b
      same e = cc
  settle-Settled (entry ∷ inputs) outputs left token h =
      let (required, needs, h1) =
        >>=-eq-ok (required_total e fee definitions outputs entry.0) _ h in
      let (balanced, h2) = fail_if-then (not (entry.1 == required)) conservation _ h1 in
      elim (key-cases entry.0 token) [
        | inl here ↦
            subst (Settled token outputs left) (sym (lookup-here entry inputs token here)) (
              (==_iff entry.1 required).0 (negated _ balanced)
              ∙ required-total outputs entry.0 required needs
              ∙ ap (λ k. total outputs k + fee_in k) here)
        | inr away ↦
            subst (Settled token outputs left) (sym (lookup-away entry inputs token away)) (
              Settled-erase token entry.0 outputs left (lookup inputs token) away
                (settle-Settled inputs (erase outputs entry.0) left token h2))
      ]
    where
      negated : (b : Bool) → not b ≡ false → b ≡ true
      negated true e = refl
      negated false e = absurd cc
