-- ===== src/Signing/Record.antt =====
-- One record of the journal: its size, and what a record that was written reads as.
use zephyr_chain.Base.{
  ℕ, ◌<◌, ◌≡◌, refl, sym, ◌∙◌, ap, false, not, ◌&&◌, ◌||◌, ltb, ◌==◌, [], ◌++◌, append-nil,
  append_assoc, arith, Bytes, length, take, length-append, take-append, bytes_eq, bytes_eq_iff, ok,
}
use zephyr_chain.Codec.BigEndian.{IsU64, put_u64, length-put_u64}
use zephyr_chain.Codec.Writer
use zephyr_chain.Codec.Reader.{run, pure, lift}
use zephyr_chain.Codec.Hash.{domain_hash}
use zephyr_chain.Codec.Reads.{
  Reads-fixed, Reads-u64, Reads-or, ReadsAll-bind, ReadsAll-require, ReadsAll-done, ReadsAll-lift,
  run-ReadsAll,
}
use zephyr_chain.Types.{Hash, is_zero32}
use zephyr_chain.Signing.{
  Memory, Intent, record_body, record_hash, record_bytes, remember, read_record,
}

-- Not before the last record, and not at its place.
abbrev pub Fresh : Memory → Intent → Type 0
Fresh m q =
    (m.has_record && (ltb q.height m.height || (q.height == m.height && not (ltb m.round q.round))))
    ≡ false

pub record IsIntent (q : Intent) : Type 0 where
  pub height_fits : IsU64 q.height
  pub height_pos : 0 < q.height
  pub round_fits : IsU64 q.round
  pub target_fits : length q.target ≡ 32
  pub target_set : is_zero32 q.target ≡ false

body_layout :
    (h r : ℕ) (target prev : Hash)
    → record_body h r target prev ≡ put_u64 h ++ (put_u64 r ++ (target ++ prev))
unfolding record_body Writer.bytes_copy
body_layout h r target prev = simp append_assoc

length-body :
    (h r : ℕ) (target prev : Hash)
    → length target ≡ 32
    → length prev ≡ 32
    → length (record_body h r target prev) ≡ 80
length-body h r target prev e e' =
    ap length (body_layout h r target prev)
    ∙ omega (
      arith,
      length-append (put_u64 h) (put_u64 r ++ (target ++ prev)),
      length-append (put_u64 r) (target ++ prev),
      length-append target prev,
      length-put_u64 h,
      length-put_u64 r,
    )

module _ (sha256 : Bytes → Bytes) (sized : (x : Bytes) → length (sha256 x) ≡ 32) where
  pub length-record_hash : (x : Bytes) → length (record_hash sha256 x) ≡ 32
  unfolding record_hash domain_hash
  length-record_hash x = sized _

  module _ (m : Memory) (q : Intent) (is : IsIntent q)
      (linked : length m.last_record_hash ≡ 32) where
    pub length-record_bytes : length (record_bytes sha256 m q) ≡ 112
    unfolding record_bytes
    length-record_bytes =
        let body = record_body q.height q.round q.target m.last_record_hash in
        length-append body (record_hash sha256 body)
        ∙ omega (
          arith,
          length-body q.height q.round q.target m.last_record_hash is.target_fits linked,
          length-record_hash body,
        )

    record_layout :
        record_bytes sha256 m q
        ≡ put_u64 q.height
          ++ (put_u64 q.round
              ++ (q.target
                  ++ (m.last_record_hash
                      ++ (record_hash sha256
                            (record_body q.height q.round q.target m.last_record_hash)
                          ++ []))))
    unfolding record_bytes
    record_layout = rw (append-nil) (
        ap
          (λ (z : Bytes).
            z ++ record_hash sha256 (record_body q.height q.round q.target m.last_record_hash))
          (body_layout _ _ _ _)
        ∙ simp append_assoc)

    body_of_record :
        take 80 (record_bytes sha256 m q) ≡ record_body q.height q.round q.target m.last_record_hash
    unfolding record_bytes
    body_of_record =
        ap (λ (n : ℕ). take n (record_bytes sha256 m q))
          (sym (length-body q.height q.round q.target m.last_record_hash is.target_fits linked))
        ∙ take-append _ _

    -- A record that the guard wrote reads as what the guard remembers.
    pub read_record-record_bytes :
        Fresh m q
        → run (read_record sha256 m (record_bytes sha256 m q)) (record_bytes sha256 m q)
          ≡ ok (remember sha256 m q)
    unfolding read_record pure lift
    read_record-record_bytes fresh =
        ap (λ (w : Bytes). run (read_record sha256 m (record_bytes sha256 m q)) w) record_layout
        ∙ run-ReadsAll (
            ReadsAll-bind _ (Reads-or _ (Reads-u64 q.height is.height_fits)) (
              ReadsAll-bind _ (Reads-or _ (Reads-u64 q.round is.round_fits)) (
                ReadsAll-bind _ (Reads-or _ (Reads-fixed 32 q.target is.target_fits)) (
                  ReadsAll-bind _ (Reads-or _ (Reads-fixed 32 m.last_record_hash linked)) (
                    ReadsAll-bind _ (Reads-or _ (Reads-fixed 32 _ (length-record_hash _))) (
                      ReadsAll-done _ (
                        ReadsAll-require _ _ (ground (arith, is.height_pos)) (
                          ReadsAll-require _ _ checks
                            (ReadsAll-require _ _ fresh (ReadsAll-lift _ _ refl))))))))))
      where
        checks :
            (is_zero32 q.target
              || (not (bytes_eq m.last_record_hash m.last_record_hash)
                  || not (
                      bytes_eq
                        (record_hash sha256
                          (record_body q.height q.round q.target m.last_record_hash))
                        (record_hash sha256 (take 80 (record_bytes sha256 m q))))))
            ≡ false
        checks =
            rw
              (
                is.target_set,
                (bytes_eq_iff m.last_record_hash m.last_record_hash).1 refl,
                body_of_record,
                (bytes_eq_iff
                      (record_hash sha256
                        (record_body q.height q.round q.target m.last_record_hash))
                      (record_hash sha256
                        (record_body q.height q.round q.target m.last_record_hash))).1
                    refl,
              )
              refl
