-- ===== src/Assets/CreateWire.antt =====
-- The payload of a token creation on the wire: `MarshalBinary` and `ParseCreateToken`.
use zephyr_chain.Base.{
  ◌≤◌, ◌≡◌, refl, sym, ◌∙◌, ap, ◌↔◌, [], ◌∷◌, ◌++◌, append-nil, append_assoc, arith, Bytes, IsBytes,
  length, Result, ok, checked-eq-ok,
}
use zephyr_chain.Codec.BigEndian.{IsU8, IsU64, put_u32, put_u64}
use zephyr_chain.Codec.Writer
use zephyr_chain.Codec.Writer.{bool_byte}
use zephyr_chain.Codec.Reads.{
  Reads-fixed, Reads-u8, Reads-u64, Reads-bool, Reads-string, Reads-or, ReadsAll-bind,
  ReadsAll-done, ReadsAll-lift, run-ReadsAll,
}
use zephyr_chain.Codec.Accepts.{
  AcceptsAll, Accepts-fixed, Accepts-u8, Accepts-u64, Accepts-bool, Accepts-string, Accepts-or,
  AcceptsAll-bind, AcceptsAll-done, AcceptsAll-lift, run-AcceptsAll,
}
use zephyr_chain.Types.{IsHash}
use zephyr_chain.Assets.Trim.{trim_space}
use zephyr_chain.Assets.Trim.Clean.{trim_space-trim_space, trim_space-IsBytes, length-trim_space-le}
use zephyr_chain.Assets.{
  CreateToken, validate_create, create_writer, marshal_create, parse_create_token,
  read_create_token,
}

-- Fields that fit their Go types and the limits of the parser, in a value that `Validate` lets pass.
pub record IsCreate (c : CreateToken) : Type 0 where
  pub name_fits : IsBytes c.name
  pub name_short : length c.name ≤ 64
  pub symbol_fits : IsBytes c.symbol
  pub symbol_short : length c.symbol ≤ 16
  pub decimals_fits : IsU8 c.decimals
  pub policy_fits : IsU8 c.supply_policy
  pub max_fits : IsU64 c.max_supply
  pub supply_fits : IsU64 c.initial_supply
  pub authority_fits : IsHash c.mint_authority
  pub valid : validate_create c ≡ ok tt

-- The bytes that the parser reads, with name and symbol as they stand.
abbrev pub create_layout : CreateToken → Bytes
create_layout c =
    (put_u32 (length c.name) ++ c.name)
    ++ ((put_u32 (length c.symbol) ++ c.symbol)
        ++ ((c.decimals ∷ [])
            ++ ((c.supply_policy ∷ [])
                ++ (put_u64 c.max_supply
                    ++ (put_u64 c.initial_supply
                        ++ (c.mint_authority
                            ++ ((bool_byte c.burnable ∷ [])
                                ++ ((bool_byte c.transferable ∷ []) ++ []))))))))

abbrev pub trimmed : CreateToken → CreateToken
trimmed c = record c { name = trim_space c.name; symbol = trim_space c.symbol }

writer-layout :
    (c : CreateToken)
    → length (trim_space c.name) ≤ 64
    → length (trim_space c.symbol) ≤ 16
    → Writer.bytes_copy (create_writer c) ≡ create_layout (trimmed c)
unfolding create_writer Writer.bytes_copy
writer-layout c h k = simp (
  append_assoc,
  append-nil,
  Writer.bool-eq-u8,
  Writer.short-length (trim_space c.name) (omega arith),
  Writer.short-length (trim_space c.symbol) (omega arith),
)

parse-layout : (c : CreateToken) → IsCreate c → parse_create_token (create_layout c) ≡ ok c
unfolding parse_create_token
parse-layout c h = run-ReadsAll (
    ReadsAll-bind _ (Reads-or _ (Reads-string 64 c.name h.name_short (omega arith))) (
      ReadsAll-bind _ (Reads-or _ (Reads-string 16 c.symbol h.symbol_short (omega arith))) (
        ReadsAll-bind _ (Reads-or _ (Reads-u8 c.decimals)) (
          ReadsAll-bind _ (Reads-or _ (Reads-u8 c.supply_policy)) (
            ReadsAll-bind _ (Reads-or _ (Reads-u64 c.max_supply h.max_fits)) (
              ReadsAll-bind _ (Reads-or _ (Reads-u64 c.initial_supply h.supply_fits)) (
                ReadsAll-bind _ (Reads-or _ (Reads-fixed 32 c.mint_authority h.authority_fits.0)) (
                  ReadsAll-bind _ (Reads-or _ (Reads-bool c.burnable)) (
                    ReadsAll-bind _ (Reads-or _ (Reads-bool c.transferable))
                      (ReadsAll-done _ (ReadsAll-lift _ c (rw h.valid))))))))))))

parse-inv :
    (w : Bytes) (c : CreateToken)
    → IsBytes w
    → parse_create_token w ≡ ok c
    → IsCreate c × (create_layout c ≡ w)
unfolding parse_create_token
parse-inv w c bs e = run-AcceptsAll accepted w c bs e
  where
    accepted : AcceptsAll read_create_token (λ c w. IsCreate c × (create_layout c ≡ w))
    accepted = AcceptsAll-bind _ (Accepts-or _ (Accepts-string 64)) λ name w1 e1.
        AcceptsAll-bind _ (Accepts-or _ (Accepts-string 16)) λ symbol w2 e2.
          AcceptsAll-bind _ (Accepts-or _ Accepts-u8) λ decimals w3 e3.
            AcceptsAll-bind _ (Accepts-or _ Accepts-u8) λ supply_policy w4 e4.
              AcceptsAll-bind _ (Accepts-or _ Accepts-u64) λ max_supply w5 e5.
                AcceptsAll-bind _ (Accepts-or _ Accepts-u64) λ initial_supply w6 e6.
                  AcceptsAll-bind _ (Accepts-or _ (Accepts-fixed 32)) λ mint_authority w7 e7.
                    AcceptsAll-bind _ (Accepts-or _ Accepts-bool) λ burnable w8 e8.
                      AcceptsAll-bind _ (Accepts-or _ Accepts-bool) λ transferable w9 e9.
                        AcceptsAll-done _ (
                          AcceptsAll-lift _ λ a e.
                            let (valid, same) = checked-eq-ok _ _ e in
                            rw (← same) (
                              record {
                                name_fits = e1.3;
                                name_short = e1.1;
                                symbol_fits = e2.3;
                                symbol_short = e2.1;
                                decimals_fits = e3.1;
                                policy_fits = e4.1;
                                max_fits = e5.1;
                                supply_fits = e6.1;
                                authority_fits = (e7.1, e7.2);
                                valid = valid;
                              },
                              rw (e1.0, e2.0, e3.0, e4.0, e5.0, e6.0, e7.0, e8, e9) refl,
                            ))

-- On a byte string `ParseCreateToken` succeeds with `c` if and only if the fields of `c` fit their Go
-- types, name and symbol have at most 64 and 16 bytes, `Validate` lets `c` pass, and the string is the
-- layout of `c`, in which name and symbol stand untrimmed.
pub parse_create_token-eq-ok_iff :
    (w : Bytes) (c : CreateToken)
    → IsBytes w
    → (parse_create_token w ≡ ok c) ↔ (IsCreate c × (create_layout c ≡ w))
parse_create_token-eq-ok_iff w c bs = (parse-inv w c bs, λ h. rw (← h.1) (parse-layout c h.0))

-- Validation looks at the name and the symbol trimmed, so it does not tell a value from its trimmed form.
validate_create-trimmed : (c : CreateToken) → validate_create (trimmed c) ≡ validate_create c
unfolding validate_create
validate_create-trimmed c = rw (trim_space-trim_space c.name, trim_space-trim_space c.symbol)

marshal-layout :
    (c : CreateToken)
    → length (trim_space c.name) ≤ 64
    → length (trim_space c.symbol) ≤ 16
    → validate_create c ≡ ok tt
    → marshal_create c ≡ ok (create_layout (trimmed c))
unfolding marshal_create
marshal-layout c h k valid = rw (valid, writer-layout c h k)

-- A valid value whose trimmed form is within the parser's limits is marshalled, and parsing the
-- bytes gives it back with name and symbol trimmed.
pub parse-marshal_create :
    (c : CreateToken)
    → IsCreate (trimmed c)
    → (w : Bytes) × (marshal_create c ≡ ok w) × (parse_create_token w ≡ ok (trimmed c))
parse-marshal_create c h = (
  create_layout (trimmed c),
  marshal-layout c h.name_short h.symbol_short (sym (validate_create-trimmed c) ∙ h.valid),
  parse-layout (trimmed c) h,
)

trimmed-IsCreate : (c : CreateToken) → IsCreate c → IsCreate (trimmed c)
trimmed-IsCreate c h = record {
  name_fits = trim_space-IsBytes c.name h.name_fits;
  name_short = omega (arith, h.name_short, length-trim_space-le c.name);
  symbol_fits = trim_space-IsBytes c.symbol h.symbol_fits;
  symbol_short = omega (arith, h.symbol_short, length-trim_space-le c.symbol);
  decimals_fits = h.decimals_fits;
  policy_fits = h.policy_fits;
  max_fits = h.max_fits;
  supply_fits = h.supply_fits;
  authority_fits = h.authority_fits;
  valid = validate_create-trimmed c ∙ h.valid;
}

same_text :
    (c : CreateToken)
    → trimmed c ≡ c
    → (trim_space c.name ≡ c.name) × (trim_space c.symbol ≡ c.symbol)
same_text c e = (ap (λ (x : CreateToken). x.name) e, ap (λ (x : CreateToken). x.symbol) e)

-- When `ParseCreateToken` answers `c` on a byte string, `c.MarshalBinary()` gives that string back if
-- and only if `strings.TrimSpace` leaves name and symbol of `c` as they are.
pub marshal_create-parse_iff :
    (w : Bytes) (c : CreateToken)
    → IsBytes w
    → parse_create_token w ≡ ok c
    → (marshal_create c ≡ ok w) ↔ ((trim_space c.name ≡ c.name) × (trim_space c.symbol ≡ c.symbol))
marshal_create-parse_iff w c bs e =
    let (is, lay) = parse-inv w c bs e in
    let is' = trimmed-IsCreate c is in
    let written : marshal_create c ≡ ok (create_layout (trimmed c)) =
      marshal-layout c is'.name_short is'.symbol_short is.valid in
    (
      λ m.
          let same : create_layout (trimmed c) ≡ w = ok_inj (sym written ∙ m) in
          let parsed : parse_create_token w ≡ ok (trimmed c) =
            rw same at (parse-layout (trimmed c) is') in
          same_text c (ok_inj (sym parsed ∙ e)),
      λ t. written ∙ ap ok (rw (t.0, t.1) lay),
    )
  where
    ok_inj : {A : Type 0} {x y : A} → ◌≡◌ {A = Result A} (ok x) (ok y) → x ≡ y
    ok_inj h = cc
