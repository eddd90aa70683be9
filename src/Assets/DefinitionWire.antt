-- ===== src/Assets/DefinitionWire.antt =====
-- Token definitions on the wire: `MarshalBinary` and `ParseDefinition`.
use zephyr_chain.Base.{
  ◌≤◌, ◌≡◌, refl, sym, ◌∙◌, ap, ◌↔◌, [], ◌∷◌, ◌++◌, append-nil, append_assoc, arith, Bytes, IsBytes,
  length, Result, ok, checked-eq-ok,
}
use zephyr_chain.Codec.BigEndian.{IsU8, IsU64, put_u32, put_u64}
use zephyr_chain.Codec.Writer
use zephyr_chain.Codec.Writer.{bool_byte}
use zephyr_chain.Codec.Reads.{
  Reads-fixed, Reads-u8, Reads-u64, Reads-bool, Reads-string, Reads-or, ReadsAll-bind,
  ReadsAll-done, ReadsAll-lift, run-ReadsAll,
}
use zephyr_chain.Codec.Accepts.{
  AcceptsAll, Accepts-fixed, Accepts-u8, Accepts-u64, Accepts-bool, Accepts-string, Accepts-or,
  AcceptsAll-bind, AcceptsAll-done, AcceptsAll-lift, run-AcceptsAll,
}
use zephyr_chain.Types.{IsHash}
use zephyr_chain.Assets.Trim.{trim_space}
use zephyr_chain.Assets.Trim.Clean.{trim_space-trim_space, trim_space-IsBytes, length-trim_space-le}
use zephyr_chain.Assets.{
  Definition, validate, definition_writer, marshal_definition, parse_definition, read_definition,
}

-- Fields that fit their Go types and the limits of the parser, in a value that `Validate` lets pass.
pub record IsDefinition (d : Definition) : Type 0 where
  pub id_fits : IsHash d.token_id
  pub name_fits : IsBytes d.name
  pub name_short : length d.name ≤ 64
  pub symbol_fits : IsBytes d.symbol
  pub symbol_short : length d.symbol ≤ 16
  pub decimals_fits : IsU8 d.decimals
  pub policy_fits : IsU8 d.supply_policy
  pub max_fits : IsU64 d.max_supply
  pub supply_fits : IsU64 d.current_supply
  pub authority_fits : IsHash d.mint_authority
  pub valid : validate d ≡ ok tt

-- The bytes that the parser reads, with name and symbol as they stand.
abbrev pub definition_layout : Definition → Bytes
definition_layout d =
    d.token_id
    ++ ((put_u32 (length d.name) ++ d.name)
        ++ ((put_u32 (length d.symbol) ++ d.symbol)
            ++ ((d.decimals ∷ [])
                ++ ((d.supply_policy ∷ [])
                    ++ (put_u64 d.max_supply
                        ++ (put_u64 d.current_supply
                            ++ (d.mint_authority
                                ++ ((bool_byte d.burnable ∷ [])
                                    ++ ((bool_byte d.transferable ∷ []) ++ [])))))))))

abbrev pub trimmed : Definition → Definition
trimmed d = record d { name = trim_space d.name; symbol = trim_space d.symbol }

writer-layout :
    (d : Definition)
    → length (trim_space d.name) ≤ 64
    → length (trim_space d.symbol) ≤ 16
    → Writer.bytes_copy (definition_writer d) ≡ definition_layout (trimmed d)
unfolding definition_writer Writer.bytes_copy
writer-layout d h k = simp (
  append_assoc,
  append-nil,
  Writer.bool-eq-u8,
  Writer.short-length (trim_space d.name) (omega arith),
  Writer.short-length (trim_space d.symbol) (omega arith),
)

parse-layout : (d : Definition) → IsDefinition d → parse_definition (definition_layout d) ≡ ok d
unfolding parse_definition
parse-layout d h = run-ReadsAll (
    ReadsAll-bind _ (Reads-or _ (Reads-fixed 32 d.token_id h.id_fits.0)) (
      ReadsAll-bind _ (Reads-or _ (Reads-string 64 d.name h.name_short (omega arith))) (
        ReadsAll-bind _ (Reads-or _ (Reads-string 16 d.symbol h.symbol_short (omega arith))) (
          ReadsAll-bind _ (Reads-or _ (Reads-u8 d.decimals)) (
            ReadsAll-bind _ (Reads-or _ (Reads-u8 d.supply_policy)) (
              ReadsAll-bind _ (Reads-or _ (Reads-u64 d.max_supply h.max_fits)) (
                ReadsAll-bind _ (Reads-or _ (Reads-u64 d.current_supply h.supply_fits)) (
                  ReadsAll-bind _ (Reads-or _ (Reads-fixed 32 d.mint_authority h.authority_fits.0))
                    (ReadsAll-bind _ (Reads-or _ (Reads-bool d.burnable)) (
                      ReadsAll-bind _ (Reads-or _ (Reads-bool d.transferable))
                        (ReadsAll-done _ (ReadsAll-lift _ d (rw h.valid)))))))))))))

parse-inv :
    (w : Bytes) (d : Definition)
    → IsBytes w
    → parse_definition w ≡ ok d
    → IsDefinition d × (definition_layout d ≡ w)
unfolding parse_definition
parse-inv w d bs e = run-AcceptsAll accepted w d bs e
  where
    accepted : AcceptsAll read_definition (λ d w. IsDefinition d × (definition_layout d ≡ w))
    accepted = AcceptsAll-bind _ (Accepts-or _ (Accepts-fixed 32)) λ token_id w1 e1.
        AcceptsAll-bind _ (Accepts-or _ (Accepts-string 64)) λ name w2 e2.
          AcceptsAll-bind _ (Accepts-or _ (Accepts-string 16)) λ symbol w3 e3.
            AcceptsAll-bind _ (Accepts-or _ Accepts-u8) λ decimals w4 e4.
              AcceptsAll-bind _ (Accepts-or _ Accepts-u8) λ supply_policy w5 e5.
                AcceptsAll-bind _ (Accepts-or _ Accepts-u64) λ max_supply w6 e6.
                  AcceptsAll-bind _ (Accepts-or _ Accepts-u64) λ current_supply w7 e7.
                    AcceptsAll-bind _ (Accepts-or _ (Accepts-fixed 32)) λ mint_authority w8 e8.
                      AcceptsAll-bind _ (Accepts-or _ Accepts-bool) λ burnable w9 e9.
                        AcceptsAll-bind _ (Accepts-or _ Accepts-bool) λ transferable w10 e10.
                          AcceptsAll-done _ (
                            AcceptsAll-lift _ λ a e.
                              let (valid, same) = checked-eq-ok _ _ e in
                              rw (← same) (
                                record {
                                  id_fits = (e1.1, e1.2);
                                  name_fits = e2.3;
                                  name_short = e2.1;
                                  symbol_fits = e3.3;
                                  symbol_short = e3.1;
                                  decimals_fits = e4.1;
                                  policy_fits = e5.1;
                                  max_fits = e6.1;
                                  supply_fits = e7.1;
                                  authority_fits = (e8.1, e8.2);
                                  valid = valid;
                                },
                                rw (e1.0, e2.0, e3.0, e4.0, e5.0, e6.0, e7.0, e8.0, e9, e10) refl,
                              ))

-- On a byte string `ParseDefinition` succeeds with `d` if and only if the fields of `d` fit their Go
-- types, name and symbol have at most 64 and 16 bytes, `Validate` lets `d` pass, and the string is the
-- layout of `d`, in which name and symbol stand untrimmed.
pub parse_definition-eq-ok_iff :
    (w : Bytes) (d : Definition)
    → IsBytes w
    → (parse_definition w ≡ ok d) ↔ (IsDefinition d × (definition_layout d ≡ w))
parse_definition-eq-ok_iff w d bs = (parse-inv w d bs, λ h. rw (← h.1) (parse-layout d h.0))

-- Validation looks at the name and the symbol trimmed, so it does not tell a value from its trimmed form.
validate-trimmed : (d : Definition) → validate (trimmed d) ≡ validate d
unfolding validate
validate-trimmed d = rw (trim_space-trim_space d.name, trim_space-trim_space d.symbol)

marshal-layout :
    (d : Definition)
    → length (trim_space d.name) ≤ 64
    → length (trim_space d.symbol) ≤ 16
    → validate d ≡ ok tt
    → marshal_definition d ≡ ok (definition_layout (trimmed d))
unfolding marshal_definition
marshal-layout d h k valid = rw (valid, writer-layout d h k)

-- A valid value whose trimmed form is within the parser's limits is marshalled, and parsing the
-- bytes gives it back with name and symbol trimmed.
pub parse-marshal_definition :
    (d : Definition)
    → IsDefinition (trimmed d)
    → (w : Bytes) × (marshal_definition d ≡ ok w) × (parse_definition w ≡ ok (trimmed d))
parse-marshal_definition d h = (
  definition_layout (trimmed d),
  marshal-layout d h.name_short h.symbol_short (sym (validate-trimmed d) ∙ h.valid),
  parse-layout (trimmed d) h,
)

trimmed-IsDefinition : (d : Definition) → IsDefinition d → IsDefinition (trimmed d)
trimmed-IsDefinition d h = record {
  id_fits = h.id_fits;
  name_fits = trim_space-IsBytes d.name h.name_fits;
  name_short = omega (arith, h.name_short, length-trim_space-le d.name);
  symbol_fits = trim_space-IsBytes d.symbol h.symbol_fits;
  symbol_short = omega (arith, h.symbol_short, length-trim_space-le d.symbol);
  decimals_fits = h.decimals_fits;
  policy_fits = h.policy_fits;
  max_fits = h.max_fits;
  supply_fits = h.supply_fits;
  authority_fits = h.authority_fits;
  valid = validate-trimmed d ∙ h.valid;
}

same_text :
    (d : Definition)
    → trimmed d ≡ d
    → (trim_space d.name ≡ d.name) × (trim_space d.symbol ≡ d.symbol)
same_text d e = (ap (λ (x : Definition). x.name) e, ap (λ (x : Definition). x.symbol) e)

-- When `ParseDefinition` answers `d` on a byte string, `d.MarshalBinary()` gives that string back if
-- and only if `strings.TrimSpace` leaves name and symbol of `d` as they are.
pub marshal_definition-parse_iff :
    (w : Bytes) (d : Definition)
    → IsBytes w
    → parse_definition w ≡ ok d
    → (marshal_definition d ≡ ok w)
      ↔ ((trim_space d.name ≡ d.name) × (trim_space d.symbol ≡ d.symbol))
marshal_definition-parse_iff w d bs e =
    let (is, lay) = parse-inv w d bs e in
    let is' = trimmed-IsDefinition d is in
    let written : marshal_definition d ≡ ok (definition_layout (trimmed d)) =
      marshal-layout d is'.name_short is'.symbol_short is.valid in
    (
      λ m.
          let same : definition_layout (trimmed d) ≡ w = ok_inj (sym written ∙ m) in
          let parsed : parse_definition w ≡ ok (trimmed d) =
            rw same at (parse-layout (trimmed d) is') in
          same_text d (ok_inj (sym parsed ∙ e)),
      λ t. written ∙ ap ok (rw (t.0, t.1) lay),
    )
  where
    ok_inj : {A : Type 0} {x y : A} → ◌≡◌ {A = Result A} (ok x) (ok y) → x ≡ y
    ok_inj h = cc
