-- ===== src/Execution/Totals.antt =====
-- `add` on a map of amounts, and the value that coins have of a token.
use zephyr_chain.Base.{
  ℕ, ◌+◌, ◌-◌, ◌≡◌, ◌≢◌, refl, sym, ◌∙◌, ap, Bool, true, false, Option, none, some, List, [], ◌∷◌,
  ◌++◌, ltb, ◌==◌, if◌then◌else◌, Bytes, bytes_eq, bytes_eq_iff, Keyed_Bytes, lookup, insert,
  lookup-insert_self, lookup-insert_ne, inl, inr, Bool-cases, IsBytes, Error, fail_if, ◌>>◌,
  amount_overflow, Result, ok, err, arith,
}
use zephyr_chain.Codec.BigEndian.{max_u64}
use zephyr_chain.Types.{TokenId}
use zephyr_chain.Object.{Object, Coin, parse_coin}
use zephyr_chain.Object.Kind
use zephyr_chain.Object.Coins.{parse_coin-eq-ok_iff}
use zephyr_chain.Transactions.{Witness}
use zephyr_chain.Execution.{Totals, OutboundOutput, total_of, total, add}

-- How much of a token a parsed coin is.
abbrev pub amount_of : TokenId → Result Coin → ℕ
amount_of token (err _) = 0
amount_of token (ok coin) = if bytes_eq coin.token token then coin.amount else 0

abbrev pub coin_value : TokenId → ℕ → Bytes → ℕ
coin_value token kind payload =
    if kind == Kind.coin then amount_of token (parse_coin payload) else 0

-- The sums over the witnesses, the created objects and the outbound outputs.
abbrev pub witnessed_value : TokenId → List Witness → ℕ
witnessed_value token [] = 0
witnessed_value token (w ∷ witnesses) =
    coin_value token w.object.kind w.object.payload + witnessed_value token witnesses

abbrev pub created_value : TokenId → List Object → ℕ
created_value token [] = 0
created_value token (o ∷ objects) = coin_value token o.kind o.payload + created_value token objects

abbrev pub outbound_value : TokenId → List OutboundOutput → ℕ
outbound_value token [] = 0
outbound_value token (o ∷ outputs) =
    coin_value token o.output.kind o.output.payload + outbound_value token outputs

pub created_value-last :
    (token : TokenId) (objects : List Object) (o : Object)
    → created_value token (objects ++ o ∷ [])
      ≡ created_value token objects + coin_value token o.kind o.payload
created_value-last token [] o = omega arith
created_value-last token (x ∷ objects) o = omega (arith, created_value-last token objects o)

pub outbound_value-last :
    (token : TokenId) (outputs : List OutboundOutput) (o : OutboundOutput)
    → outbound_value token (outputs ++ o ∷ [])
      ≡ outbound_value token outputs + coin_value token o.output.kind o.output.payload
outbound_value-last token [] o = omega arith
outbound_value-last token (x ∷ outputs) o = omega (arith, outbound_value-last token outputs o)

-- No entry is zero.
abbrev pub Positive : Totals → Type 0
Positive totals = (token : TokenId) → lookup totals token ≢ some 0

-- `if cond { return err }` before a result.
pub guarded-eq-ok :
    {A : Type 0} (b : Bool) (e : Error) (a out : A)
    → (if b then err e else ok a) ≡ ok out
    → (b ≡ false) × (a ≡ out)
guarded-eq-ok true e a out h = absurd cc
guarded-eq-ok false e a out h = (refl, cc)

pub fail_if-then :
    {A : Type 0} (b : Bool) (e : Error) (rest : Result A) {out : A}
    → fail_if b e >> rest ≡ ok out
    → (b ≡ false) × (rest ≡ ok out)
fail_if-then true e rest h = absurd cc
fail_if-then false e rest h = (refl, h)

add-eq-ok :
    (totals next : Totals) (token : TokenId) (amount : ℕ)
    → add totals token amount ≡ ok next
    → insert totals token (total totals token + amount) ≡ next
unfolding add
add-eq-ok totals next token amount h =
    (guarded-eq-ok (ltb (max_u64 - total totals token) amount) amount_overflow _ next h).1

lookup-add :
    (totals : Totals) (token x : TokenId) (amount : ℕ)
    → lookup (insert totals token (total totals token + amount)) x
      ≡ (if bytes_eq token x then some (total totals token + amount) else lookup totals x)
lookup-add totals token x amount = elim (Bool-cases (bytes_eq token x)) [
  | inl same ↦ rw same (
      ap (lookup (insert totals token _)) (sym ((bytes_eq_iff token x).0 same))
      ∙ lookup-insert_self totals token _)
  | inr other ↦
      rw other
        (lookup-insert_ne totals token x _ (λ e. cc (sym other ∙ (bytes_eq_iff token x).1 e)))
]

-- An amount added to a token's total adds to no other.
pub total-add :
    (totals next : Totals) (token x : TokenId) (amount : ℕ)
    → add totals token amount ≡ ok next
    → total next x ≡ total totals x + (if bytes_eq token x then amount else 0)
total-add totals next token x amount h =
    ap (λ (m : Totals). total m x) (sym (add-eq-ok totals next token amount h))
    ∙ ap total_of (lookup-add totals token x amount)
    ∙ elim (Bool-cases (bytes_eq token x)) [
      | inl same ↦
          rw same (ap (λ (t : TokenId). total totals t + amount) ((bytes_eq_iff token x).0 same))
      | inr other ↦ rw other (omega arith)
    ]

pub add-Positive :
    (totals next : Totals) (token : TokenId) (amount : ℕ)
    → amount ≢ 0
    → Positive totals
    → add totals token amount ≡ ok next
    → Positive next
add-Positive totals next token amount nonzero h e x none' = some_nonzero (bytes_eq token x) (
    sym (
      ap (λ (m : Totals). lookup m x) (sym (add-eq-ok totals next token amount e))
      ∙ lookup-add totals token x amount)
    ∙ none')
  where
    some_nonzero :
        (b : Bool)
        → (if b then some (total totals token + amount) else lookup totals x) ≡ some 0
        → ⊥
    some_nonzero true k = nonzero (sums _ _ (injective k))
      where
        injective : {m n : ℕ} → some m ≡ some n → m ≡ n
        injective k = cc

        sums : (m n : ℕ) → m + n ≡ 0 → n ≡ 0
        sums m n k = omega arith
    some_nonzero false k = h x k

-- A map without zero entries has a total of zero for a token only where it has no entry.
pub total-none :
    (totals : Totals) (token : TokenId)
    → Positive totals
    → total totals token ≡ 0
    → lookup totals token ≡ none
total-none totals token h e = of_lookup (lookup totals token) refl e
  where
    of_lookup : (o : Option ℕ) → lookup totals token ≡ o → total_of o ≡ 0 → o ≡ none
    of_lookup none k e = refl
    of_lookup (some amount) k e = absurd (h token (k ∙ ap some e))

pub parse_coin-positive :
    (payload : Bytes) (coin : Coin)
    → IsBytes payload
    → parse_coin payload ≡ ok coin
    → coin.amount ≢ 0
parse_coin-positive payload coin bs h e =
    let fits = ((parse_coin-eq-ok_iff payload coin bs).0 h).0 in omega (arith, fits.amount_pos, e)
