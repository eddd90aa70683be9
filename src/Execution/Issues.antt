-- ===== src/Execution/Issues.antt =====
-- The creation of a token makes its initial supply and conserves everything else.
use zephyr_chain.Base.{
  ℕ, ◌+◌, ◌-◌, ◌<◌, ◌≡◌, refl, sym, ◌∙◌, ap, Bool, true, false, not, ◌||◌, List, [], ◌∷◌, ◌++◌, ltb,
  ◌==◌, if◌then◌else◌, Bytes, IsBytes, All, bytes_eq, bytes_eq_iff, inl, inr, Bool-cases, Error, ok,
  err, or_error, >>=-eq-ok, or_error-eq-ok, checked-eq-ok, conservation, amount_overflow, ownership,
  wrong_shard, map, arith,
}
use mathlib.Core.Path.{subst}
use zephyr_chain.Codec.BigEndian.{IsU64, max_u64}
use zephyr_chain.Codec.Hash.{domain_hash}
use zephyr_chain.Types.{Hash, TokenId, AccountId, IsHash, is_zero32, token_id_from_transaction}
use zephyr_chain.Object.{Object, OutputSpec, Coin, parse_coin, new_coin_output_at_height}
use zephyr_chain.Object.Kind
use zephyr_chain.Object.Coins.{IsCoin, parse-marshal_coin}
use zephyr_chain.Assets.{CreateToken, parse_create_token, marshal_definition}
use zephyr_chain.Assets.CreateWire.{parse_create_token-eq-ok_iff}
use zephyr_chain.Sharding.{shard_for_account}
use zephyr_chain.Consensus.Validators.{Crypto}
use zephyr_chain.Transactions.{Transaction, InputRef, Witness, transaction_id}
use zephyr_chain.Execution.{Engine, Outcome, Emitted, nothing_emitted, stamp_coin_output, place}
use zephyr_chain.Execution.Totals.{
  coin_value, witnessed_value, created_value, outbound_value, fail_if-then,
}
use zephyr_chain.Execution.Emits.{output_value, emitted_value, stamped-value, place-value}
use zephyr_chain.Execution.Create.{
  gather_native, emit_native_one, emit_native, new_definition, issued_objects, execute_create_token,
}

-- An amount of the native token, as an amount of any token.
abbrev pub in_token : TokenId → TokenId → ℕ → ℕ
in_token native token amount = if bytes_eq native token then amount else 0

in_token-add :
    (native token : TokenId) (a b : ℕ)
    → in_token native token (a + b) ≡ in_token native token a + in_token native token b
in_token-add native token a b = split (bytes_eq native token)
  where
    split :
        (same : Bool)
        → (if same then a + b else 0) ≡ (if same then a else 0) + (if same then b else 0)
    split true = refl
    split false = omega arith

-- The value of a native coin.
native-value :
    (native token : TokenId) (kind : ℕ) (payload : Bytes) (coin : Coin)
    → (kind == Kind.coin) ≡ true
    → parse_coin payload ≡ ok coin
    → bytes_eq coin.token native ≡ true
    → coin_value token kind payload ≡ in_token native token coin.amount
native-value native token kind payload coin is_coin parsed same =
    rw (is_coin, parsed)
      (ap (λ (t : TokenId). if bytes_eq t token then coin.amount else 0)
        ((bytes_eq_iff coin.token native).0 same))

negated : (b : Bool) → not b ≡ false → b ≡ true
negated true e = refl
negated false e = absurd cc

neither : (a b : Bool) → (not a || not b) ≡ false → (a ≡ true) × (b ≡ true)
neither a b e = ground arith

ok_injective : {A : Type 0} {a b : A} → ok a ≡ ok b → a ≡ b
ok_injective e = cc

gather_native-value :
    (native : TokenId) (sender : AccountId) (witnesses : List Witness) (before after : ℕ)
    (token : TokenId)
    → gather_native native sender witnesses before ≡ ok after
    → in_token native token after ≡ in_token native token before + witnessed_value token witnesses
unfolding gather_native
gather_native-value native sender [] before after token h =
    ap (in_token native token) (sym (ok_injective h)) ∙ omega arith
gather_native-value native sender (w ∷ witnesses) before after token h =
    let (mine, h1) =
      fail_if-then (not (bytes_eq w.object.owner sender) || not (w.object.kind == Kind.coin))
        ownership _ h in
    let (coin, parsed, h2) = >>=-eq-ok (parse_coin w.object.payload) _ h1 in
    let (native_coin, h3) = fail_if-then (not (bytes_eq coin.token native)) conservation _ h2 in
    let (fits, h4) = fail_if-then (ltb (max_u64 - before) coin.amount) amount_overflow _ h3 in
    let value =
      native-value native token w.object.kind w.object.payload coin (neither _ _ mine).1 parsed
        (negated _ native_coin) in
    let later = gather_native-value native sender witnesses (before + coin.amount) after token h4 in
    omega (arith, value, later, in_token-add native token before coin.amount)

-- What is counted and what is made grow by the same.
record Paid (native token : TokenId) (outputs : List OutputSpec) (before after : ℕ × Emitted)
    : Type 0 where
  counted :
      in_token native token after.0 ≡ in_token native token before.0 + output_value token outputs
  made : emitted_value token after.1 ≡ emitted_value token before.1 + output_value token outputs

module _ (sha256 : Bytes → Bytes) (e : Engine) (fits : IsU64 e.height) (t : Transaction)
    (tx_id : Hash) (token : TokenId) where
  Paid-last :
      (index destination : ℕ) (spec stamped : OutputSpec) (coin : Coin) (paid : ℕ × Emitted)
      → IsBytes spec.payload
      → (spec.kind == Kind.coin) ≡ true
      → parse_coin spec.payload ≡ ok coin
      → bytes_eq coin.token e.native_token ≡ true
      → stamp_coin_output spec e.height ≡ ok stamped
      → Paid e.native_token token
          (spec ∷ [])
          paid
          (paid.0 + coin.amount, place sha256 tx_id t.shard_id index destination stamped paid.1)
  Paid-last index destination spec stamped coin paid bs kind parsed same stamps =
      let value = native-value e.native_token token spec.kind spec.payload coin kind parsed same in
      let stamped_value =
        stamped-value spec stamped coin e.height token bs fits kind parsed stamps in
      record {
        counted = omega (arith, value, in_token-add e.native_token token paid.0 coin.amount);
        made = omega (
          arith,
          stamped_value,
          place-value sha256 tx_id t.shard_id index destination stamped paid.1 token,
        );
      }

  emit_native_one-Paid :
      (index : ℕ) (spec : OutputSpec) (before after : ℕ × Emitted)
      → IsBytes spec.payload
      → emit_native_one sha256 e t tx_id index spec before ≡ ok after
      → Paid e.native_token token (spec ∷ []) before after
  unfolding emit_native_one
  emit_native_one-Paid index spec before after bs h =
      let (coin, parses, h1) = >>=-eq-ok (or_error (parse_coin spec.payload) conservation) _ h in
      let parsed = or_error-eq-ok (parse_coin spec.payload) conservation parses in
      let (native_coin, h2) =
        fail_if-then (not (spec.kind == Kind.coin) || not (bytes_eq coin.token e.native_token))
          conservation _ h1 in
      let (room, h3) = fail_if-then (ltb (max_u64 - before.0) coin.amount) amount_overflow _ h2 in
      let (destination, routed, h4) =
        >>=-eq-ok (or_error (shard_for_account e.shard_count spec.owner) wrong_shard) _ h3 in
      let (stamped, stamps, h5) = >>=-eq-ok (stamp_coin_output spec e.height) _ h4 in
      subst (Paid e.native_token token (spec ∷ []) before) (ok_injective h5) (
        Paid-last index destination spec stamped coin before bs (neither _ _ native_coin).0 parsed
          (neither _ _ native_coin).1 stamps)

  emit_native-Paid :
      (index : ℕ) (outputs : List OutputSpec) (before after : ℕ × Emitted)
      → All (λ (o : OutputSpec). IsBytes o.payload) outputs
      → emit_native sha256 e t tx_id index outputs before ≡ ok after
      → Paid e.native_token token outputs before after
  unfolding emit_native
  emit_native-Paid index [] before after bs h =
      subst (Paid e.native_token token [] before) (ok_injective h)
        (record { counted = omega arith; made = omega arith })
  emit_native-Paid index (spec ∷ outputs) before after bs h =
      let (middle, first, rest) =
        >>=-eq-ok (emit_native_one sha256 e t tx_id index spec before) _ h in
      let one = emit_native_one-Paid index spec before middle bs.0 first in
      let later = emit_native-Paid (index + 1) outputs middle after bs.1 rest in
      record {
        counted = omega (arith, one.counted, later.counted);
        made = omega (arith, one.made, later.made);
      }

created_value-append :
    (token : TokenId) (a b : List Object)
    → created_value token (a ++ b) ≡ created_value token a + created_value token b
created_value-append token [] b = omega arith
created_value-append token (o ∷ a) b = omega (arith, created_value-append token a b)

minted-value :
    (owner : AccountId) (id token : TokenId) (amount height : ℕ) (spec : OutputSpec)
    → IsHash id
    → IsU64 amount
    → IsU64 height
    → new_coin_output_at_height owner id amount height ≡ ok spec
    → coin_value token spec.kind spec.payload ≡ in_token id token amount
unfolding new_coin_output_at_height
minted-value owner id token amount height spec hash fits high h =
    elim (Bool-cases (is_zero32 owner || is_zero32 id || amount == 0)) [
      | inl zero' ↦ absurd (refused (rw zero' at h))
      | inr set ↦
          let coin : Coin = record { token = id; amount = amount; created_height = height } in
          let same = (checked-eq-ok _ _ (rw set at h)).1 in
          ap (λ (s : OutputSpec). coin_value token s.kind s.payload) (sym same)
          ∙ rw (parse-marshal_coin coin (is_coin set)) refl
    ]
  where
    refused : {a : OutputSpec} {x : Error} → err x ≡ ok a → ⊥
    refused k = cc

    parts : (a b c : Bool) → (a || b || c) ≡ false → (b ≡ false) × (c ≡ false)
    parts a b c k = ground arith

    is_coin :
        (is_zero32 owner || is_zero32 id || amount == 0) ≡ false
        → IsCoin (record { token = id; amount = amount; created_height = height })
    is_coin set = record {
      token_fits = hash;
      token_set = (parts (is_zero32 owner) (is_zero32 id) (amount == 0) set).0;
      amount_fits = fits;
      amount_pos = positive amount (parts (is_zero32 owner) (is_zero32 id) (amount == 0) set).1;
      height_fits = high;
    }
      where
        positive : (n : ℕ) → (n == 0) ≡ false → 0 < n
        positive n k = ground arith

issued-value :
    (sha256 : Bytes → Bytes) (t : Transaction) (tx_id : Hash) (definition_bytes : Bytes)
    (initial : OutputSpec) (token : TokenId)
    → created_value token (issued_objects sha256 t tx_id definition_bytes initial)
      ≡ coin_value token initial.kind initial.payload
unfolding issued_objects
issued-value sha256 t tx_id definition_bytes initial token = omega arith

-- What a creation that succeeds went through.
record Creation (crypto : Crypto) (e : Engine) (t : Transaction) (create : CreateToken)
    (r : Outcome) : Type 0 where
  native_in : ℕ
  paid : ℕ × Emitted
  definition_bytes : Bytes
  initial : OutputSpec
  gathers : gather_native e.native_token t.sender t.witnesses 0 ≡ ok native_in
  emits :
      emit_native crypto.sha256 e t (transaction_id crypto t) 0 t.outputs (0, nothing_emitted)
      ≡ ok paid
  balanced : native_in ≡ paid.0 + t.fee
  mints :
      new_coin_output_at_height t.sender
        (token_id_from_transaction crypto.sha256 (transaction_id crypto t) 0)
        create.initial_supply
        e.height
      ≡ ok initial
  gives : r ≡ record {
    consumed = map (λ (i : InputRef). i.object_id) t.inputs;
    created =
        paid.1.created
        ++ issued_objects crypto.sha256 t (transaction_id crypto t) definition_bytes initial;
    outbound = paid.1.outbound;
    tx_id = transaction_id crypto t;
  }

execute_create_token-Creation :
    (crypto : Crypto) (e : Engine) (t : Transaction) (payload : Bytes) (create : CreateToken)
    (r : Outcome)
    → parse_create_token payload ≡ ok create
    → execute_create_token crypto e t payload ≡ ok r
    → Creation crypto e t create r
unfolding execute_create_token
execute_create_token-Creation crypto e t payload create r parsed h =
    let (authority, h1) =
      fail_if-then (not (bytes_eq create.mint_authority t.sender)) ownership _ (rw parsed at h) in
    let (native_in, gathers, h2) =
      >>=-eq-ok (gather_native e.native_token t.sender t.witnesses 0) _ h1 in
    let (paid, emits, h3) =
      >>=-eq-ok
        (emit_native crypto.sha256 e t (transaction_id crypto t) 0 t.outputs (0, nothing_emitted)) _
        h2 in
    let (balance, h4) =
      fail_if-then (ltb (max_u64 - paid.0) t.fee || not (native_in == paid.0 + t.fee)) conservation
        _ h3 in
    let (definition_bytes, marshals, h5) =
      >>=-eq-ok
        (marshal_definition (
          new_definition (token_id_from_transaction crypto.sha256 (transaction_id crypto t) 0)
            create))
        _ h4 in
    let (initial, mints, h6) =
      >>=-eq-ok
        (new_coin_output_at_height t.sender
          (token_id_from_transaction crypto.sha256 (transaction_id crypto t) 0)
          create.initial_supply e.height)
        _ h5 in
    record {
      native_in = native_in;
      paid = paid;
      definition_bytes = definition_bytes;
      initial = initial;
      gathers = gathers;
      emits = emits;
      balanced = equal _ native_in (paid.0 + t.fee) balance;
      mints = mints;
      gives = sym (ok_injective h6);
    }
  where
    equal : (b : Bool) (m n : ℕ) → (b || not (m == n)) ≡ false → m ≡ n
    equal b m n k = ground arith

-- An accepted creation of a token, with well-formed payloads and results of SHA-256 of 32 bytes, makes the
-- initial supply of the new token and conserves everything else: for every token, what the created coins and
-- the outbound coins hold of it, and in the native token the fee besides, is what the input coins held of it,
-- and in the new token the initial supply besides.
pub execute_create_token-issues :
    (crypto : Crypto) (e : Engine) (t : Transaction) (payload : Bytes) (create : CreateToken)
    (r : Outcome) (token : TokenId)
    → ((x : Bytes) → IsHash (crypto.sha256 x))
    → IsU64 e.height
    → IsBytes payload
    → All (λ (o : OutputSpec). IsBytes o.payload) t.outputs
    → parse_create_token payload ≡ ok create
    → execute_create_token crypto e t payload ≡ ok r
    → created_value token r.created
        + outbound_value token r.outbound
        + in_token e.native_token token t.fee
      ≡ witnessed_value token t.witnesses
        + in_token
            (token_id_from_transaction crypto.sha256 (transaction_id crypto t) 0)
            token
            create.initial_supply
unfolding token_id_from_transaction domain_hash
execute_create_token-issues crypto e t payload create r token hashes high bs emitted parsed h =
    let done = execute_create_token-Creation crypto e t payload create r parsed h in
    let tx_id = transaction_id crypto t in
    let supply = ((parse_create_token-eq-ok_iff payload create bs).0 parsed).0.supply_fits in
    let gathered =
      gather_native-value e.native_token t.sender t.witnesses 0 done.native_in token done.gathers in
    let paid =
      emit_native-Paid crypto.sha256 e high t tx_id token 0 t.outputs (0, nothing_emitted) done.paid
        emitted done.emits in
    let minted =
      minted-value t.sender (token_id_from_transaction crypto.sha256 tx_id 0) token
        create.initial_supply e.height done.initial (hashes _) supply high done.mints in
    rw done.gives (
      account e.native_token token (created_value token done.paid.1.created)
        (outbound_value token done.paid.1.outbound) t.fee done.native_in done.paid.0 _ _ _ _ _
        (created_value-append token done.paid.1.created
          (issued_objects crypto.sha256 t tx_id done.definition_bytes done.initial))
        (issued-value crypto.sha256 t tx_id done.definition_bytes done.initial token ∙ minted)
        done.balanced gathered paid.counted paid.made)
  where
    account :
        (native token : TokenId)
        (created outbound fee native_in paid all issued supply witnessed outputs : ℕ)
        → all ≡ created + issued
        → issued ≡ supply
        → native_in ≡ paid + fee
        → in_token native token native_in ≡ in_token native token 0 + witnessed
        → in_token native token paid ≡ in_token native token 0 + outputs
        → created + outbound ≡ 0 + outputs
        → all + outbound + in_token native token fee ≡ witnessed + supply
    account native token created outbound fee native_in paid all issued supply witnessed outputs a b
          c d f g =
        let sum = in_token-add native token paid fee in
        let total = ap (in_token native token) c ∙ sum in omega (arith, a, b, total, d, f, g)
