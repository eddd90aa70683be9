-- ===== src/Execution/Conserves.antt =====
-- Transfers neither make nor lose tokens.
use zephyr_chain.Base.{
  ℕ, ◌+◌, ◌≡◌, ◌≢◌, refl, sym, ◌∙◌, ap, ap₂, Bool, true, false, not, ◌&&◌, Option, none, some, [],
  ◌∷◌, ◌==◌, ==_iff, if◌then◌else◌, IsBytes, All, bytes_eq, Keyed_Bytes, lookup, length, ok,
  >>=-eq-ok, conservation, arith,
}
use zephyr_chain.Codec.BigEndian.{IsU64}
use zephyr_chain.Types.{TokenId}
use zephyr_chain.Object.{OutputSpec}
use zephyr_chain.Consensus.Validators.{Crypto}
use zephyr_chain.Transactions.{Transaction, Witness, transaction_id}
use zephyr_chain.Execution.{
  Engine, Outcome, Gathered, Emitted, Totals, Definitions, nothing_gathered, nothing_emitted, total,
  total_of, gather, emit, settle, execute_transfer,
}
use zephyr_chain.Execution.Totals.{
  witnessed_value, created_value, outbound_value, Positive, fail_if-then,
}
use zephyr_chain.Execution.Gathers.{Payloads, gather-Gathering, coin_ids, OwnedBy}
use zephyr_chain.Execution.Emits.{emit-Emission}
use zephyr_chain.Execution.Settles.{Settled, settle-Settled}

-- What a transfer that succeeds went through.
record Transfer (crypto : Crypto) (e : Engine) (t : Transaction) (r : Outcome) : Type 0 where
  g : Gathered
  out : Emitted
  left : Totals
  gathers : gather e.native_token t.sender t.witnesses nothing_gathered ≡ ok g
  emits :
      emit crypto.sha256 e t (transaction_id crypto t) g.definitions 0 t.outputs nothing_emitted
      ≡ ok out
  settles : settle e t.fee g.definitions g.totals out.totals ≡ ok left
  empty : length left ≡ 0
  gives : r ≡ record {
    consumed = g.consumed;
    created = out.created;
    outbound = out.outbound;
    tx_id = transaction_id crypto t;
  }

execute_transfer-Transfer :
    (crypto : Crypto) (e : Engine) (t : Transaction) (r : Outcome)
    → execute_transfer crypto e t ≡ ok r
    → Transfer crypto e t r
unfolding execute_transfer
execute_transfer-Transfer crypto e t r h =
    let (g, gathers, h1) =
      >>=-eq-ok (gather e.native_token t.sender t.witnesses nothing_gathered) _ h in
    let (out, emits, h2) =
      >>=-eq-ok
        (emit crypto.sha256 e t (transaction_id crypto t) g.definitions 0 t.outputs nothing_emitted)
        _ h1 in
    let (left, settles, h3) = >>=-eq-ok (settle e t.fee g.definitions g.totals out.totals) _ h2 in
    let (nothing, h4) = fail_if-then (not (length left == 0)) conservation _ h3 in
    record {
      g = g;
      out = out;
      left = left;
      gathers = gathers;
      emits = emits;
      settles = settles;
      empty = (==_iff (length left) 0).0 (negated _ nothing);
      gives = sym (same h4);
    }
  where
    negated : (b : Bool) → not b ≡ false → b ≡ true
    negated true e = refl
    negated false e = absurd cc

    same : {a b : Outcome} → ok a ≡ ok b → a ≡ b
    same e = cc

empty-total : (left : Totals) (token : TokenId) → length left ≡ 0 → lookup left token ≡ none
empty-total [] token h = refl
empty-total (x ∷ left) token h = absurd (omega arith)

-- The balance of one token by its input total.
balance :
    (e : Engine) (fee : ℕ) (definitions : Definitions) (outputs left : Totals) (token : TokenId)
    (o : Option ℕ)
    → o ≢ some 0
    → length left ≡ 0
    → Settled e fee definitions token outputs left o
    → total_of o
      ≡ total outputs token
        + (if bytes_eq token e.native_token && not (total_of o == 0) then fee else 0)
unfolding Settled
balance e fee definitions outputs left token none h empty s =
    nothing (bytes_eq token e.native_token)
    ∙ ap (λ k. total_of k + unpaid (bytes_eq token e.native_token))
        (sym (empty-total left token empty) ∙ s)
  where
    unpaid : Bool → ℕ
    unpaid b = if b && false then fee else 0

    nothing : (b : Bool) → 0 ≡ 0 + unpaid b
    nothing true = refl
    nothing false = refl
balance e fee definitions outputs left token (some amount) h empty s =
    s
    ∙ ap (λ b. total outputs token + (if b then fee else 0))
        (sym (counted (bytes_eq token e.native_token) (amount == 0) refl))
  where
    counted : (b zero' : Bool) → (amount == 0) ≡ zero' → (b && not zero') ≡ b
    counted b true k = absurd (h (ap some ((==_iff amount 0).0 k)))
    counted true false k = refl
    counted false false k = refl

no_entries : Positive []
no_entries token h = cc

-- A transfer of well-formed payloads that `executeTransfer` accepts conserves every token: what its input
-- coins hold of the token is what the coins that it creates on the shard and sends to other shards hold of
-- it, and in the native token the fee besides, unless it has no input of the native token, when no fee is
-- taken from anything.
pub execute_transfer-conserves :
    (crypto : Crypto) (e : Engine) (t : Transaction) (r : Outcome) (token : TokenId)
    → IsU64 e.height
    → Payloads t.witnesses
    → All (λ (o : OutputSpec). IsBytes o.payload) t.outputs
    → execute_transfer crypto e t ≡ ok r
    → witnessed_value token t.witnesses
      ≡ created_value token r.created
        + outbound_value token r.outbound
        + (if bytes_eq token e.native_token && not (witnessed_value token t.witnesses == 0)
            then t.fee
            else 0)
execute_transfer-conserves crypto e t r token fits witnessed emitted h =
    let done = execute_transfer-Transfer crypto e t r h in
    let gathering =
      gather-Gathering e.native_token t.sender t.witnesses nothing_gathered done.g witnessed
        done.gathers in
    let emission =
      emit-Emission crypto.sha256 e fits t (transaction_id crypto t) done.g.definitions token 0
        t.outputs nothing_emitted done.out emitted done.emits in
    let settled =
      settle-Settled e t.fee done.g.definitions done.g.totals done.out.totals done.left token
        done.settles in
    let inputs : total done.g.totals token ≡ witnessed_value token t.witnesses =
      omega (arith, gathering.gathered token) in
    let outputs : total done.out.totals token
        ≡ created_value token done.out.created + outbound_value token done.out.outbound =
      omega (arith, emission.counted, emission.made) in
    let balanced =
      balance e t.fee done.g.definitions done.out.totals done.left token
        (lookup done.g.totals token) (gathering.positive no_entries token) done.empty settled in
    rw done.gives (
      sym inputs
      ∙ balanced
      ∙ ap₂ (λ v w. v + (if bytes_eq token e.native_token && not (w == 0) then t.fee else 0))
          outputs inputs)

-- A transfer that `executeTransfer` accepts consumes exactly the coins among its witnesses, each once for
-- each time that it stands there, and all of them belong to the sender.
pub execute_transfer-owned :
    (crypto : Crypto) (e : Engine) (t : Transaction) (r : Outcome)
    → Payloads t.witnesses
    → execute_transfer crypto e t ≡ ok r
    → (r.consumed ≡ coin_ids t.witnesses)
      × All (λ (w : Witness). OwnedBy t.sender w.object) t.witnesses
execute_transfer-owned crypto e t r witnessed h =
    let done = execute_transfer-Transfer crypto e t r h in
    let gathering =
      gather-Gathering e.native_token t.sender t.witnesses nothing_gathered done.g witnessed
        done.gathers in
    rw done.gives (gathering.taken, gathering.owned)
