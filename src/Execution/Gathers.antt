-- ===== src/Execution/Gathers.antt =====
-- The loop over the witnesses of `executeTransfer`: what it adds up.
use zephyr_chain.Base.{
  ◌+◌, ◌≡◌, ◌≢◌, refl, sym, ◌∙◌, ap, Bool, true, false, not, ◌||◌, List, [], ◌∷◌, ◌++◌,
  append_assoc, append-nil, ◌==◌, ==_iff, if◌then◌else◌, IsBytes, All, bytes_eq, bytes_eq_iff, ◌⊎◌,
  Keyed_Bytes, inl, inr, Bool-cases, Result, ok, err, or_error, >>=-eq-ok, ownership, token_policy,
  arith,
}
use mathlib.Core.Path.{subst}
use zephyr_chain.Types.{TokenId, AccountId, ObjectId}
use zephyr_chain.Object.{Object, Coin, parse_coin}
use zephyr_chain.Object.Kind
use zephyr_chain.Assets.{parse_definition}
use zephyr_chain.Transactions.{Witness}
use zephyr_chain.Execution.{
  Gathered, total, add, has_definition, gather_coin, gather_definition, gather,
}
use zephyr_chain.Execution.Totals.{
  coin_value, witnessed_value, Positive, fail_if-then, total-add, add-Positive, parse_coin-positive,
}

-- The identifiers of the coins among the witnesses.
abbrev pub coin_id : Object → List ObjectId
coin_id o = if o.kind == Kind.coin then o.id ∷ [] else []

abbrev pub coin_ids : List Witness → List ObjectId
coin_ids [] = []
coin_ids (w ∷ witnesses) = coin_id w.object ++ coin_ids witnesses

-- A coin belongs to the account.
unfoldable pub OwnedBy : AccountId → Object → Type 0
OwnedBy sender o = (o.kind ≢ Kind.coin) ⊎ (o.owner ≡ sender)

-- What the first loop adds for one object.
record Gains (sender : AccountId) (o : Object) (g next : Gathered) : Type 0 where
  gained :
      (token : TokenId)
      → total next.totals token ≡ total g.totals token + coin_value token o.kind o.payload
  positive : Positive g.totals → Positive next.totals
  taken : next.consumed ≡ g.consumed ++ coin_id o
  owned : OwnedBy sender o

gather_coin-Gains :
    (sender : AccountId) (o : Object) (g next : Gathered)
    → IsBytes o.payload
    → (o.kind == Kind.coin) ≡ true
    → gather_coin sender o g ≡ ok next
    → Gains sender o g next
unfolding gather_coin OwnedBy
gather_coin-Gains sender o g next bs kind h =
    let (owned, rest) = fail_if-then (not (bytes_eq o.owner sender)) ownership _ h in
    let (coin, parsed, rest2) = >>=-eq-ok (parse_coin o.payload) _ rest in
    let (totals, added, result) = >>=-eq-ok (add g.totals coin.token coin.amount) _ rest2 in
    let same : totals ≡ next.totals = totals_of result in
    record {
      gained = λ token.
          ap (λ m. total m token) (sym same)
          ∙ total-add g.totals totals coin.token token coin.amount added
          ∙ ap (λ v. total g.totals token + v) (sym (value coin token parsed));
      positive = λ old token. rw (← same) (
          add-Positive g.totals totals coin.token coin.amount
            (parse_coin-positive o.payload coin bs parsed) old added token);
      taken = sym (consumed_of result) ∙ rw kind refl;
      owned = inr ((bytes_eq_iff o.owner sender).0 (negated _ owned));
    }
  where
    totals_of : {a b : Gathered} → ok a ≡ ok b → a.totals ≡ b.totals
    totals_of e = cc

    consumed_of : {a b : Gathered} → ok a ≡ ok b → a.consumed ≡ b.consumed
    consumed_of e = cc

    negated : (b : Bool) → not b ≡ false → b ≡ true
    negated true e = refl
    negated false e = absurd cc

    value :
        (coin : Coin) (token : TokenId)
        → parse_coin o.payload ≡ ok coin
        → coin_value token o.kind o.payload ≡ (if bytes_eq coin.token token then coin.amount else 0)
    value coin token parsed = rw (kind, parsed) refl

gather_definition-Gains :
    (native : TokenId) (sender : AccountId) (o : Object) (g next : Gathered)
    → (o.kind == Kind.coin) ≡ false
    → gather_definition native o g ≡ ok next
    → Gains sender o g next
unfolding gather_definition OwnedBy
gather_definition-Gains native sender o g next kind h =
    let (definition, parsed, rest) =
      >>=-eq-ok (or_error (parse_definition o.payload) token_policy) _ h in
    let (fresh, result) =
      fail_if-then
        (bytes_eq definition.token_id native || has_definition g.definitions definition.token_id)
        token_policy _ rest in
    let same : g.totals ≡ next.totals = totals_of result in
    record {
      gained = λ token. ap (λ m. total m token) (sym same) ∙ nothing token;
      positive = λ old token. rw (← same) (old token);
      taken = sym (consumed_of result) ∙ rw kind (sym (append-nil g.consumed));
      owned = inl (λ e. cc (sym kind ∙ (==_iff o.kind Kind.coin).1 e));
    }
  where
    totals_of : {a b : Gathered} → ok a ≡ ok b → a.totals ≡ b.totals
    totals_of e = cc

    consumed_of : {a b : Gathered} → ok a ≡ ok b → a.consumed ≡ b.consumed
    consumed_of e = cc

    nothing :
        (token : TokenId)
        → total g.totals token ≡ total g.totals token + coin_value token o.kind o.payload
    nothing token = rw kind (omega arith)

-- Payloads as the parsers see them.
abbrev pub Payloads : List Witness → Type 0
Payloads witnesses = All (λ (w : Witness). IsBytes w.object.payload) witnesses

-- One turn of the loop.
abbrev turn : TokenId → AccountId → Object → Gathered → Result Gathered
turn native sender o g =
    if o.kind == Kind.coin
    then gather_coin sender o g
    else if o.kind == Kind.token_definition
    then gather_definition native o g
    else err ownership

turn-Gains :
    (native : TokenId) (sender : AccountId) (o : Object) (g next : Gathered)
    → IsBytes o.payload
    → turn native sender o g ≡ ok next
    → Gains sender o g next
turn-Gains native sender o g next bs h = elim (Bool-cases (o.kind == Kind.coin)) [
  | inl coin ↦ gather_coin-Gains sender o g next bs coin (rw coin at h)
  | inr other ↦
      gather_definition-Gains native sender o g next other
        (defined (o.kind == Kind.token_definition) (rw other at h))
]
  where
    defined :
        (b : Bool)
        → (if b then gather_definition native o g else err ownership) ≡ ok next
        → gather_definition native o g ≡ ok next
    defined true k = k
    defined false k = absurd cc

-- What the loop has done at its end.
pub record Gathering (sender : AccountId) (witnesses : List Witness) (g next : Gathered)
    : Type 0 where
  pub gathered :
      (token : TokenId)
      → total next.totals token ≡ total g.totals token + witnessed_value token witnesses
  pub positive : Positive g.totals → Positive next.totals
  pub taken : next.consumed ≡ g.consumed ++ coin_ids witnesses
  pub owned : All (λ (w : Witness). OwnedBy sender w.object) witnesses

no_turns : (sender : AccountId) (g : Gathered) → Gathering sender [] g g
no_turns sender g = record {
  gathered = λ token. omega arith;
  positive = λ old. old;
  taken = sym (append-nil g.consumed);
  owned = tt;
}

pub gather-Gathering :
    (native : TokenId) (sender : AccountId) (witnesses : List Witness) (g next : Gathered)
    → Payloads witnesses
    → gather native sender witnesses g ≡ ok next
    → Gathering sender witnesses g next
unfolding gather
gather-Gathering native sender [] g next bs h =
    subst (Gathering sender [] g) (same h) (no_turns sender g)
  where
    same : {a b : Gathered} → ok a ≡ ok b → a ≡ b
    same e = cc
gather-Gathering native sender (w ∷ witnesses) g next bs h =
    let (middle, first, rest) = >>=-eq-ok (turn native sender w.object g) _ h in
    let gains = turn-Gains native sender w.object g middle bs.0 first in
    let later = gather-Gathering native sender witnesses middle next bs.1 rest in
    record {
      gathered = λ token. omega (arith, gains.gained token, later.gathered token);
      positive = λ old. later.positive (gains.positive old);
      taken =
          later.taken
          ∙ ap (λ ids. ids ++ coin_ids witnesses) gains.taken
          ∙ append_assoc g.consumed (coin_id w.object) (coin_ids witnesses);
      owned = (gains.owned, later.owned);
    }
