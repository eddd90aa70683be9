-- ===== src/Object/Wire.antt =====
-- Objects and output specifications on the wire: `CanonicalBytes`, `ParseObject`,
-- `ParseOutputSpec`.
use zephyr_chain.Base.{
  ◌≤◌, ◌≡◌, ◌↔◌, [], ◌++◌, append-nil, append_assoc, arith, Bytes, IsBytes, length, ok,
  checked-eq-ok,
}
use zephyr_chain.Codec.BigEndian.{IsU16, IsU64, put_u16, put_u32, put_u64}
use zephyr_chain.Codec.Writer
use zephyr_chain.Codec.Reads.{
  Reads-fixed, Reads-u16, Reads-u64, Reads-bytes, Reads-or, ReadsAll-bind, ReadsAll-done,
  ReadsAll-lift, run-ReadsAll,
}
use zephyr_chain.Codec.Accepts.{
  AcceptsAll, Accepts-fixed, Accepts-u16, Accepts-u64, Accepts-bytes, Accepts-or, AcceptsAll-bind,
  AcceptsAll-done, AcceptsAll-lift, run-AcceptsAll,
}
use zephyr_chain.Types.{IsHash}
use zephyr_chain.Object.{
  Object, OutputSpec, validate, validate_output, canonical_bytes, parse_object, read_object,
  canonical_output, parse_output_spec, read_output_spec, max_object_data_bytes,
}

-- An object whose fields fit their Go types, and which `Validate` lets pass.
pub record IsObject (o : Object) : Type 0 where
  pub id_fits : IsHash o.id
  pub version_fits : IsU64 o.version
  pub owner_fits : IsHash o.owner
  pub kind_fits : IsU16 o.kind
  pub payload_fits : IsBytes o.payload
  pub valid : validate o ≡ ok tt

validate-size : (o : Object) → validate o ≡ ok tt → length o.payload ≤ max_object_data_bytes
unfolding validate
validate-size o h = ground arith

object_layout :
    (o : Object)
    → length o.payload ≤ max_object_data_bytes
    → canonical_bytes o
      ≡ o.id
        ++ (put_u64 o.version
            ++ (o.owner ++ (put_u16 o.kind ++ ((put_u32 (length o.payload) ++ o.payload) ++ []))))
unfolding canonical_bytes Writer.bytes_copy
object_layout o h = simp (append_assoc, append-nil, Writer.short-length o.payload (omega arith))

parse-canonical_bytes : (o : Object) → IsObject o → parse_object (canonical_bytes o) ≡ ok o
unfolding parse_object
parse-canonical_bytes o h =
    let size = validate-size o h.valid in
    rw (object_layout o size) (
      run-ReadsAll (
        ReadsAll-bind _ (Reads-or _ (Reads-fixed 32 o.id h.id_fits.0)) (
          ReadsAll-bind _ (Reads-or _ (Reads-u64 o.version h.version_fits)) (
            ReadsAll-bind _ (Reads-or _ (Reads-fixed 32 o.owner h.owner_fits.0)) (
              ReadsAll-bind _ (Reads-or _ (Reads-u16 o.kind h.kind_fits)) (
                ReadsAll-bind _
                  (Reads-or _ (Reads-bytes max_object_data_bytes o.payload size (omega arith)))
                  (ReadsAll-done _ (ReadsAll-lift _ o (rw h.valid)))))))))

parse_object-inv :
    (w : Bytes) (o : Object)
    → IsBytes w
    → parse_object w ≡ ok o
    → IsObject o × (canonical_bytes o ≡ w)
unfolding parse_object
parse_object-inv w o bs e = run-AcceptsAll accepted w o bs e
  where
    accepted : AcceptsAll read_object (λ o w. IsObject o × (canonical_bytes o ≡ w))
    accepted = AcceptsAll-bind _ (Accepts-or _ (Accepts-fixed 32)) λ id w1 e1.
        AcceptsAll-bind _ (Accepts-or _ Accepts-u64) λ version w2 e2.
          AcceptsAll-bind _ (Accepts-or _ (Accepts-fixed 32)) λ owner w3 e3.
            AcceptsAll-bind _ (Accepts-or _ Accepts-u16) λ kind w4 e4.
              AcceptsAll-bind _ (Accepts-or _ (Accepts-bytes max_object_data_bytes))
                λ payload w5 e5. AcceptsAll-done _ (
                  AcceptsAll-lift _ λ a e.
                    let (valid, same) = checked-eq-ok _ _ e in
                    rw (← same) (
                      record {
                        id_fits = (e1.1, e1.2);
                        version_fits = e2.1;
                        owner_fits = (e3.1, e3.2);
                        kind_fits = e4.1;
                        payload_fits = e5.3;
                        valid = valid;
                      },
                      rw (e1.0, e2.0, e3.0, e4.0, e5.0) (object_layout _ e5.1),
                    ))

-- `ParseObject` accepts exactly the canonical encodings of valid objects, and answers the object:
-- on a byte string it succeeds with `o` if and only if the fields of `o` fit their Go types, `o`
-- passes `Validate`, and the string is `o.CanonicalBytes()`.
pub parse_object-eq-ok_iff :
    (w : Bytes) (o : Object)
    → IsBytes w
    → (parse_object w ≡ ok o) ↔ (IsObject o × (canonical_bytes o ≡ w))
parse_object-eq-ok_iff w o bs =
    (parse_object-inv w o bs, λ h. rw (← h.1) (parse-canonical_bytes o h.0))

-- An output specification whose fields fit their Go types, and which `Validate` lets pass.
pub record IsOutputSpec (o : OutputSpec) : Type 0 where
  pub owner_fits : IsHash o.owner
  pub kind_fits : IsU16 o.kind
  pub payload_fits : IsBytes o.payload
  pub valid : validate_output o ≡ ok tt

validate_output-size :
    (o : OutputSpec) → validate_output o ≡ ok tt → length o.payload ≤ max_object_data_bytes
unfolding validate_output
validate_output-size o h = ground arith

output_layout :
    (o : OutputSpec)
    → length o.payload ≤ max_object_data_bytes
    → canonical_output o
      ≡ o.owner ++ (put_u16 o.kind ++ ((put_u32 (length o.payload) ++ o.payload) ++ []))
unfolding canonical_output Writer.bytes_copy
output_layout o h = simp (append_assoc, append-nil, Writer.short-length o.payload (omega arith))

parse-canonical_output :
    (o : OutputSpec) → IsOutputSpec o → parse_output_spec (canonical_output o) ≡ ok o
unfolding parse_output_spec
parse-canonical_output o h =
    let size = validate_output-size o h.valid in
    rw (output_layout o size) (
      run-ReadsAll (
        ReadsAll-bind _ (Reads-or _ (Reads-fixed 32 o.owner h.owner_fits.0)) (
          ReadsAll-bind _ (Reads-or _ (Reads-u16 o.kind h.kind_fits)) (
            ReadsAll-bind _
              (Reads-or _ (Reads-bytes max_object_data_bytes o.payload size (omega arith)))
              (ReadsAll-done _ (ReadsAll-lift _ o (rw h.valid)))))))

parse_output_spec-inv :
    (w : Bytes) (o : OutputSpec)
    → IsBytes w
    → parse_output_spec w ≡ ok o
    → IsOutputSpec o × (canonical_output o ≡ w)
unfolding parse_output_spec
parse_output_spec-inv w o bs e = run-AcceptsAll accepted w o bs e
  where
    accepted : AcceptsAll read_output_spec (λ o w. IsOutputSpec o × (canonical_output o ≡ w))
    accepted = AcceptsAll-bind _ (Accepts-or _ (Accepts-fixed 32)) λ owner w1 e1.
        AcceptsAll-bind _ (Accepts-or _ Accepts-u16) λ kind w2 e2.
          AcceptsAll-bind _ (Accepts-or _ (Accepts-bytes max_object_data_bytes)) λ payload w3 e3.
            AcceptsAll-done _ (
              AcceptsAll-lift _ λ a e.
                let (valid, same) = checked-eq-ok _ _ e in
                rw (← same) (
                  record {
                    owner_fits = (e1.1, e1.2);
                    kind_fits = e2.1;
                    payload_fits = e3.3;
                    valid = valid;
                  },
                  rw (e1.0, e2.0, e3.0) (output_layout _ e3.1),
                ))

-- On a byte string `ParseOutputSpec` succeeds with `o` if and only if the fields of `o` fit their Go
-- types, `Validate` lets `o` pass, and the string is `o.CanonicalBytes()`.
pub parse_output_spec-eq-ok_iff :
    (w : Bytes) (o : OutputSpec)
    → IsBytes w
    → (parse_output_spec w ≡ ok o) ↔ (IsOutputSpec o × (canonical_output o ≡ w))
parse_output_spec-eq-ok_iff w o bs =
    (parse_output_spec-inv w o bs, λ h. rw (← h.1) (parse-canonical_output o h.0))
