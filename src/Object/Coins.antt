-- ===== src/Object/Coins.antt =====
-- Coins on the wire: `MarshalBinary` and `ParseCoin`.
use zephyr_chain.Base.{
  ◌<◌, ◌≡◌, false, ◌↔◌, [], ◌++◌, append-nil, append_assoc, arith, Bytes, IsBytes, ok,
  checked-eq-ok, fail_if-eq-ok,
}
use zephyr_chain.Codec.BigEndian.{IsU64, put_u64}
use zephyr_chain.Codec.Writer
use zephyr_chain.Codec.Reads.{
  Reads-fixed, Reads-u64, Reads-or, ReadsAll-bind, ReadsAll-require, ReadsAll-done, ReadsAll-lift,
  run-ReadsAll,
}
use zephyr_chain.Codec.Accepts.{
  AcceptsAll, Accepts-fixed, Accepts-u64, Accepts-or, AcceptsAll-bind, AcceptsAll-require,
  AcceptsAll-done, AcceptsAll-lift, run-AcceptsAll,
}
use zephyr_chain.Types.{IsHash, is_zero32}
use zephyr_chain.Object.{Coin, marshal_coin, parse_coin, read_coin}

-- A coin whose fields fit their Go types, and which `ParseCoin` lets pass.
pub record IsCoin (c : Coin) : Type 0 where
  pub token_fits : IsHash c.token
  pub token_set : is_zero32 c.token ≡ false
  pub amount_fits : IsU64 c.amount
  pub amount_pos : 0 < c.amount
  pub height_fits : IsU64 c.created_height

coin_layout :
    (c : Coin) → marshal_coin c ≡ c.token ++ (put_u64 c.amount ++ (put_u64 c.created_height ++ []))
unfolding marshal_coin Writer.bytes_copy
coin_layout c = simp (append_assoc, append-nil)

pub parse-marshal_coin : (c : Coin) → IsCoin c → parse_coin (marshal_coin c) ≡ ok c
unfolding parse_coin
parse-marshal_coin c h = rw (coin_layout c) (
    run-ReadsAll (
      ReadsAll-bind _ (Reads-or _ (Reads-fixed 32 c.token h.token_fits.0)) (
        ReadsAll-bind _ (Reads-or _ (Reads-u64 c.amount h.amount_fits)) (
          ReadsAll-require _ _ (ground arith) (
            ReadsAll-bind _ (Reads-or _ (Reads-u64 c.created_height h.height_fits))
              (ReadsAll-done _ (ReadsAll-lift _ c (rw h.token_set))))))))

parse_coin-inv :
    (w : Bytes) (c : Coin) → IsBytes w → parse_coin w ≡ ok c → IsCoin c × (marshal_coin c ≡ w)
unfolding parse_coin
parse_coin-inv w c bs e = run-AcceptsAll accepted w c bs e
  where
    accepted : AcceptsAll read_coin (λ c w. IsCoin c × (marshal_coin c ≡ w))
    accepted = AcceptsAll-bind _ (Accepts-or _ (Accepts-fixed 32)) λ token w1 e1.
        AcceptsAll-bind _ (Accepts-or _ Accepts-u64) λ amount w2 e2.
          AcceptsAll-require _ _ λ nonzero.
            AcceptsAll-bind _ (Accepts-or _ Accepts-u64) λ height w3 e3. AcceptsAll-done _ (
              AcceptsAll-lift _ λ a e.
                let (nonzero_token, same) = checked-eq-ok _ _ e in
                rw (← same) (
                  record {
                    token_fits = (e1.1, e1.2);
                    token_set = fail_if-eq-ok _ _ nonzero_token;
                    amount_fits = e2.1;
                    amount_pos = ground arith;
                    height_fits = e3.1;
                  },
                  rw (e1.0, e2.0, e3.0) (coin_layout _),
                ))

-- `ParseCoin` accepts exactly the encodings of well-formed coins, and answers the coin: on a byte
-- string it succeeds with `c` if and only if `c` is a well-formed coin (32-byte identifier that is
-- not zero, `uint64` fields, a positive amount) and the string is `c.MarshalBinary()`.
pub parse_coin-eq-ok_iff :
    (w : Bytes) (c : Coin) → IsBytes w → (parse_coin w ≡ ok c) ↔ (IsCoin c × (marshal_coin c ≡ w))
parse_coin-eq-ok_iff w c bs = (parse_coin-inv w c bs, λ h. rw (← h.1) (parse-marshal_coin c h.0))
