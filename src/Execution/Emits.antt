-- ===== src/Execution/Emits.antt =====
-- The loop over the outputs of `executeTransfer`: what it adds up, and what it makes.
use zephyr_chain.Base.{
  ℕ, ◌+◌, ◌%◌, ◌^◌, ◌≡◌, refl, sym, ◌∙◌, ap, Bool, true, false, not, ◌&&◌, List, [], ◌∷◌, ◌==◌,
  if◌then◌else◌, Bytes, IsBytes, All, bytes_eq, inl, inr, Bool-cases, ok, or_error, >>=-eq-ok,
  conservation, token_policy, wrong_shard, arith,
}
use mathlib.Core.Path.{subst}
use zephyr_chain.Codec.BigEndian.{IsU64}
use zephyr_chain.Types.{Hash, TokenId}
use zephyr_chain.Object.{OutputSpec, Coin, parse_coin}
use zephyr_chain.Object.Kind
use zephyr_chain.Object.Coins.{IsCoin, parse_coin-eq-ok_iff, parse-marshal_coin}
use zephyr_chain.Sharding.{shard_for_account}
use zephyr_chain.Transactions.{Transaction}
use zephyr_chain.Execution.{
  Engine, Totals, Definitions, Emitted, total, add, transferable, stamp_coin_output, created_object,
  place, emit_one, emit,
}
use zephyr_chain.Execution.Totals.{
  coin_value, created_value, outbound_value, created_value-last, outbound_value-last, fail_if-then,
  total-add,
}

abbrev pub output_value : TokenId → List OutputSpec → ℕ
output_value token [] = 0
output_value token (o ∷ outputs) = coin_value token o.kind o.payload + output_value token outputs

-- What was made so far, on the shard and for the others.
abbrev pub emitted_value : TokenId → Emitted → ℕ
emitted_value token out = created_value token out.created + outbound_value token out.outbound

-- A stamped coin has the height of the engine, and the value it had.
pub stamped-value :
    (spec stamped : OutputSpec) (coin : Coin) (height : ℕ) (token : TokenId)
    → IsBytes spec.payload
    → IsU64 height
    → (spec.kind == Kind.coin) ≡ true
    → parse_coin spec.payload ≡ ok coin
    → stamp_coin_output spec height ≡ ok stamped
    → coin_value token stamped.kind stamped.payload ≡ coin_value token spec.kind spec.payload
unfolding stamp_coin_output
stamped-value spec stamped coin height token bs fits kind parsed h =
    ap (λ (s : OutputSpec). coin_value token s.kind s.payload) (sym (same (rw (kind, parsed) at h)))
    ∙ rw (kind, parse-marshal_coin (record coin { created_height = height }) at_height, parsed) refl
  where
    at_height : IsCoin (record coin { created_height = height })
    at_height =
        let old = ((parse_coin-eq-ok_iff spec.payload coin bs).0 parsed).0 in
        record {
          token_fits = old.token_fits;
          token_set = old.token_set;
          amount_fits = old.amount_fits;
          amount_pos = old.amount_pos;
          height_fits = fits;
        }

    same : {a b : OutputSpec} → ok a ≡ ok b → a ≡ b
    same e = cc

pub place-value :
    (sha256 : Bytes → Bytes) (tx_id : Hash) (shard_id index destination : ℕ) (spec : OutputSpec)
    (out : Emitted) (token : TokenId)
    → emitted_value token (place sha256 tx_id shard_id index destination spec out)
      ≡ emitted_value token out + coin_value token spec.kind spec.payload
unfolding place created_object
place-value sha256 tx_id shard_id index destination spec out token =
    elim (Bool-cases (destination == shard_id)) [
      | inl here ↦ rw here (
          omega (
            arith,
            created_value-last token out.created
                (created_object sha256 tx_id index destination spec),
          ))
      | inr away ↦ rw away (
          omega (
            arith,
            outbound_value-last token out.outbound (record {
              destination_shard = destination;
              output_index = index % 2 ^ 32;
              output = spec;
            }),
          ))
    ]

place-totals :
    (sha256 : Bytes → Bytes) (tx_id : Hash) (shard_id index destination : ℕ) (spec : OutputSpec)
    (out : Emitted)
    → (place sha256 tx_id shard_id index destination spec out).totals ≡ out.totals
unfolding place
place-totals sha256 tx_id shard_id index destination spec out =
    elim (Bool-cases (destination == shard_id)) [
      | inl here ↦ rw here refl
      | inr away ↦ rw away refl
    ]

-- What is counted and what is made grow by the same.
pub record Emission (token : TokenId) (outputs : List OutputSpec) (out next : Emitted)
    : Type 0 where
  pub counted : total next.totals token ≡ total out.totals token + output_value token outputs
  pub made : emitted_value token next ≡ emitted_value token out + output_value token outputs

module _ (sha256 : Bytes → Bytes) (e : Engine) (fits : IsU64 e.height) (t : Transaction)
    (tx_id : Hash) (definitions : Definitions) (token : TokenId) where
  placed-Emission :
      (index destination : ℕ) (spec stamped : OutputSpec) (coin : Coin) (totals : Totals)
      (out : Emitted)
      → IsBytes spec.payload
      → (spec.kind == Kind.coin) ≡ true
      → parse_coin spec.payload ≡ ok coin
      → add out.totals coin.token coin.amount ≡ ok totals
      → stamp_coin_output spec e.height ≡ ok stamped
      → Emission token
          (spec ∷ [])
          out
          (place sha256 tx_id t.shard_id index destination stamped (record out { totals = totals }))
  placed-Emission index destination spec stamped coin totals out bs kind parsed added stamps =
      let value = stamped-value spec stamped coin e.height token bs fits kind parsed stamps in
      record {
        counted =
            ap (λ m. total m token)
              (place-totals sha256 tx_id t.shard_id index destination stamped
                (record out { totals = totals }))
            ∙ total-add out.totals totals coin.token token coin.amount added
            ∙ ap (λ v. total out.totals token + v) counted_value;
        made =
            place-value sha256 tx_id t.shard_id index destination stamped
              (record out { totals = totals }) token
            ∙ ap (λ v. emitted_value token out + v)
                (value ∙ alone (coin_value token spec.kind spec.payload));
      }
    where
      alone : (v : ℕ) → v ≡ v + 0
      alone v = omega arith

      counted_value :
          (if bytes_eq coin.token token then coin.amount else 0) ≡ output_value token (spec ∷ [])
      counted_value =
          alone (if bytes_eq coin.token token then coin.amount else 0) ∙ rw (kind, parsed) refl

  emit_one-Emission :
      (index : ℕ) (spec : OutputSpec) (out next : Emitted)
      → IsBytes spec.payload
      → emit_one sha256 e t tx_id definitions index spec out ≡ ok next
      → Emission token (spec ∷ []) out next
  unfolding emit_one
  emit_one-Emission index spec out next bs h =
      let (kind, h1) = fail_if-then (not (spec.kind == Kind.coin)) conservation _ h in
      let (coin, parsed, h2) = >>=-eq-ok (parse_coin spec.payload) _ h1 in
      let (allowed, h3) =
        fail_if-then
          (not (bytes_eq coin.token e.native_token) && not (transferable definitions coin.token))
          token_policy _ h2 in
      let (totals, added, h4) = >>=-eq-ok (add out.totals coin.token coin.amount) _ h3 in
      let (destination, routed, h5) =
        >>=-eq-ok (or_error (shard_for_account e.shard_count spec.owner) wrong_shard) _ h4 in
      let (local, h6) =
        fail_if-then (not (bytes_eq coin.token e.native_token) && not (destination == t.shard_id))
          token_policy _ h5 in
      let (stamped, stamps, h7) = >>=-eq-ok (stamp_coin_output spec e.height) _ h6 in
      at_place index destination spec stamped (record out { totals = totals }) h7
        (placed-Emission index destination spec stamped coin totals out bs (negated _ kind) parsed
          added stamps)
    where
      negated : (b : Bool) → not b ≡ false → b ≡ true
      negated true e = refl
      negated false e = absurd cc

      at_place :
          (index destination : ℕ) (spec stamped : OutputSpec) (before : Emitted)
          → ok (place sha256 tx_id t.shard_id index destination stamped before) ≡ ok next
          → Emission token
              (spec ∷ [])
              out
              (place sha256 tx_id t.shard_id index destination stamped before)
          → Emission token (spec ∷ []) out next
      at_place index destination spec stamped before h emission =
          subst (Emission token (spec ∷ []) out) (same h) emission
        where
          same : {a b : Emitted} → ok a ≡ ok b → a ≡ b
          same e = cc

  -- The totals that the loop counts are the values of what it makes.
  pub emit-Emission :
      (index : ℕ) (outputs : List OutputSpec) (out next : Emitted)
      → All (λ (o : OutputSpec). IsBytes o.payload) outputs
      → emit sha256 e t tx_id definitions index outputs out ≡ ok next
      → Emission token outputs out next
  unfolding emit
  emit-Emission index [] out next bs h =
      subst (Emission token [] out) (same h) (record { counted = omega arith; made = omega arith })
    where
      same : {a b : Emitted} → ok a ≡ ok b → a ≡ b
      same e = cc
  emit-Emission index (spec ∷ outputs) out next bs h =
      let (middle, first, rest) =
        >>=-eq-ok (emit_one sha256 e t tx_id definitions index spec out) _ h in
      let one = emit_one-Emission index spec out middle bs.0 first in
      let later = emit-Emission (index + 1) outputs middle next bs.1 rest in
      record {
        counted = omega (arith, one.counted, later.counted);
        made = omega (arith, one.made, later.made);
      }
