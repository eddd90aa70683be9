-- ===== src/Consensus/Transitions.antt =====
-- Certified transitions from one validator set to the next, internal/v2/consensus/transition.go, and the hash
-- of a certificate.
use zephyr_chain.Base.{
  ◌%◌, ◌^◌, ◌≡◌, ◌<◌, ◌*◌, ◌⊎◌, refl, sym, ◌∙◌, ap, ap₂, Bool, true, false, not, ◌||◌, ◌==◌, ==_iff,
  if◌then◌else◌, List, [], ◌∷◌, ◌++◌, append_assoc, append-parts, length, bytes_eq, bytes_eq_iff,
  codes, inl, inr, Bool-cases, Result, ok, err, fail_if, or_error, or_error-eq-ok, ◌>>◌, ◌>>=◌,
  >>=-eq-ok, validator_set, certificate, arith,
}
use zephyr_chain.Codec.BigEndian.{put_u16, put_u64, length-put_u16, length-put_u64}
use zephyr_chain.Codec.Writer
use zephyr_chain.Codec.Writer.{Writer, ◌▷◌}
use zephyr_chain.Codec.Hash.{HashCollision, domain_hash, domain_hash-payload}
use zephyr_chain.Types.{Hash, ValidatorId, zero_hash, is_zero32}
use zephyr_chain.Sharding.{GlobalHeader, header_bytes, effective_next_validator_root}
use zephyr_chain.Consensus.Validators.{Crypto, ValidatorSet, bytes_lt, validator_root}
use zephyr_chain.Consensus.Votes.{Vote, Certificate, header_consensus_hash, verify_certificate}
use zephyr_chain.Consensus.Power.{sum_power, power_where}
use zephyr_chain.Consensus.Safety.{Equivocation, voted_both, conflicting-certificates}

-- `sort.Slice` by voter. The voters of a certificate that verifies differ.
unfoldable pub insert_by_voter : Vote → List Vote → List Vote
unfolding bytes_lt
insert_by_voter v [] = v ∷ []
insert_by_voter v (w ∷ ws) =
    let rest = insert_by_voter v ws in if bytes_lt w.voter v.voter then w ∷ rest else v ∷ w ∷ ws

unfoldable pub sort_by_voter : List Vote → List Vote
unfolding insert_by_voter
sort_by_voter [] = []
sort_by_voter (v ∷ vs) = insert_by_voter v (sort_by_voter vs)

unfoldable pub write_votes : List Vote → Writer → Writer
write_votes [] w = w
write_votes (v ∷ votes) w =
    write_votes votes
      (w ▷ Writer.fixed v.voter ▷ Writer.bytes v.public_key ▷ Writer.bytes v.signature)

module _ (crypto : Crypto) where
  -- `Certificate.Hash`
  unfoldable pub certificate_hash : Certificate → Hash
  unfolding sort_by_voter write_votes
  certificate_hash c = domain_hash crypto.sha256 (codes "zephyr/quorum-certificate/v2") (
      Writer.bytes_copy (
        Writer.empty
        ▷ Writer.fixed c.network
        ▷ Writer.u64 c.height
        ▷ Writer.u64 c.round
        ▷ Writer.fixed c.header_hash
        ▷ Writer.u32 (length c.votes % 2 ^ 32)
        ▷ write_votes (sort_by_voter c.votes)))

  unfoldable pub verify_certified_transition :
      GlobalHeader → Certificate → ValidatorSet → ValidatorSet → Result (Unit {0})
  unfolding certificate_hash
  verify_certified_transition header c current next =
      or_error (validator_root crypto current) validator_set >>= λ current_root.
      fail_if
        (not (bytes_eq current.network header.network)
          || not (bytes_eq current_root header.validator_root))
        validator_set
      >> (fail_if
            (not (bytes_eq c.network header.network)
              || not (c.height == header.height)
              || not (bytes_eq c.header_hash (header_consensus_hash crypto header))
              || not (bytes_eq header.certificate_hash (certificate_hash c)))
            certificate
          >> (verify_certificate crypto current c
              >> (or_error (validator_root crypto next) validator_set >>= λ next_root.
                  fail_if
                    (not (bytes_eq next.network header.network)
                      || not (bytes_eq next_root (effective_next_validator_root header)))
                    validator_set)))

  -- What an accepted transition says.
  record Transition (header : GlobalHeader) (c : Certificate) (current next : ValidatorSet)
      : Type 0 where
    certified : verify_certificate crypto current c ≡ ok tt
    height : c.height ≡ header.height
    header_hash : c.header_hash ≡ header_consensus_hash crypto header
    next_root : validator_root crypto next ≡ ok (effective_next_validator_root header)

  accepted-Transition :
      (header : GlobalHeader) (c : Certificate) (current next : ValidatorSet)
      → verify_certified_transition header c current next ≡ ok tt
      → Transition header c current next
  unfolding verify_certified_transition
  accepted-Transition header c current next h =
      let (current_root, roots, h1) =
        >>=-eq-ok (or_error (validator_root crypto current) validator_set) _ h in
      let (h2, h3) =
        both
          (fail_if
            (not (bytes_eq current.network header.network)
              || not (bytes_eq current_root header.validator_root))
            validator_set)
          _ h1 in
      let (fits, h4) =
        both
          (fail_if
            (not (bytes_eq c.network header.network)
              || not (c.height == header.height)
              || not (bytes_eq c.header_hash (header_consensus_hash crypto header))
              || not (bytes_eq header.certificate_hash (certificate_hash c)))
            certificate)
          _ h3 in
      let (certified, h5) = both (verify_certificate crypto current c) _ h4 in
      let (next_root, next_roots, h6) =
        >>=-eq-ok (or_error (validator_root crypto next) validator_set) _ h5 in
      let tests =
        four _ (c.height == header.height)
          (bytes_eq c.header_hash (header_consensus_hash crypto header)) _ (passed _ _ fits) in
      record {
        certified = certified;
        height = (==_iff _ _).0 tests.0;
        header_hash = (bytes_eq_iff _ _).0 tests.1;
        next_root =
            or_error-eq-ok (validator_root crypto next) validator_set next_roots
            ∙ ap ok ((bytes_eq_iff _ _).0 (two _ _ (passed _ _ h6)));
      }
    where
      both : (a b : Result (Unit {0})) → a >> b ≡ ok tt → (a ≡ ok tt) × (b ≡ ok tt)
      both (ok tt) b k = (refl, k)
      both (err e) b k = absurd cc

      passed : (b : Bool) (e : _) → fail_if b e ≡ ok tt → b ≡ false
      passed true e k = absurd cc
      passed false e k = refl

      four : (a b c d : Bool) → (not a || not b || not c || not d) ≡ false → (b ≡ true) × (c ≡ true)
      four a b c d k = ground arith

      two : (a b : Bool) → (not a || not b) ≡ false → b ≡ true
      two a b k = ground arith

-- The arrays of a header have 32 bytes.
pub record SizedHeader (h : GlobalHeader) : Type 0 where
  pub network_sized : length h.network ≡ 32
  pub parent_sized : length h.parent_hash ≡ 32
  pub shards_sized : length h.shard_commitment_root ≡ 32
  pub validators_sized : length h.validator_root ≡ 32
  pub next_sized : length h.next_validator_root ≡ 32

header_layout :
    (h : GlobalHeader)
    → header_bytes h
      ≡ put_u16 h.version
        ++ (h.network
            ++ (put_u64 h.height
                ++ (h.parent_hash
                    ++ (h.shard_commitment_root
                        ++ (h.validator_root
                            ++ (h.next_validator_root ++ (h.data_root ++ h.certificate_hash)))))))
unfolding header_bytes Writer.bytes_copy
header_layout h = simp append_assoc

-- Equal canonical headers authorize one next set.
header_bytes-next :
    (h k : GlobalHeader)
    → SizedHeader h
    → SizedHeader k
    → header_bytes h ≡ header_bytes k
    → effective_next_validator_root h ≡ effective_next_validator_root k
unfolding effective_next_validator_root
header_bytes-next h k a b e =
    let (e0, r0) =
      append-parts (put_u16 h.version) _ (put_u16 k.version) _
        (length-put_u16 _ ∙ sym (length-put_u16 _)) (sym (header_layout h) ∙ e ∙ header_layout k) in
    let (e1, r1) =
      append-parts h.network _ k.network _ (a.network_sized ∙ sym b.network_sized) r0 in
    let (e2, r2) =
      append-parts (put_u64 h.height) _ (put_u64 k.height) _
        (length-put_u64 _ ∙ sym (length-put_u64 _)) r1 in
    let (e3, r3) =
      append-parts h.parent_hash _ k.parent_hash _ (a.parent_sized ∙ sym b.parent_sized) r2 in
    let (e4, r4) =
      append-parts h.shard_commitment_root _ k.shard_commitment_root _
        (a.shards_sized ∙ sym b.shards_sized) r3 in
    let (e5, r5) =
      append-parts h.validator_root _ k.validator_root _
        (a.validators_sized ∙ sym b.validators_sized) r4 in
    let (e6, r6) =
      append-parts h.next_validator_root _ k.next_validator_root _ (a.next_sized ∙ sym b.next_sized)
        r5 in
    ap₂ (λ (n v : Hash). if is_zero32 n then v else n) e6 e5

module _ (crypto : Crypto) where
  without_certificate :
      (h : GlobalHeader) → SizedHeader h → SizedHeader (record h { certificate_hash = zero_hash })
  without_certificate h s = record {
    network_sized = s.network_sized;
    parent_sized = s.parent_sized;
    shards_sized = s.shards_sized;
    validators_sized = s.validators_sized;
    next_sized = s.next_sized;
  }

  consensus_hash-next :
      (h k : GlobalHeader)
      → SizedHeader h
      → SizedHeader k
      → header_consensus_hash crypto h ≡ header_consensus_hash crypto k
      → (effective_next_validator_root h ≡ effective_next_validator_root k)
        ⊎ HashCollision crypto.sha256
  unfolding header_consensus_hash effective_next_validator_root
  consensus_hash-next h k a b e =
      elim (domain_hash-payload crypto.sha256 (codes "zephyr/global-header-consensus/v2")
        (header_bytes (record h { certificate_hash = zero_hash }))
        (header_bytes (record k { certificate_hash = zero_hash })) e) [
          | inl same ↦ inl (
              header_bytes-next (record h { certificate_hash = zero_hash })
                (record k { certificate_hash = zero_hash }) (without_certificate h a)
                (without_certificate k b) same)
          | inr c ↦ inr c
        ]

  -- Voters with more than a third of the power of a set, each of whom signed two votes for different headers
  -- at one height and round.
  pub record Conflict (s : ValidatorSet) (c d : Certificate) : Type 0 where
    pub heavy : sum_power s.validators < 3 * power_where (voted_both c d) s.validators
    pub guilty : (id : ValidatorId) → voted_both c d id ≡ true → Equivocation crypto id

  -- Two accepted transitions of one validator set with certificates of one round, over headers of one height,
  -- authorize next sets of one root, or voters with more than a third of the power of the set signed two votes
  -- each for different headers at that height and round, or there are two byte strings of one SHA-256 hash.
  -- The arrays of the headers have 32 bytes.
  pub transitions-agree :
      (h k : GlobalHeader) (c d : Certificate) (current next next' : ValidatorSet)
      → SizedHeader h
      → SizedHeader k
      → h.height ≡ k.height
      → c.round ≡ d.round
      → verify_certified_transition crypto h c current next ≡ ok tt
      → verify_certified_transition crypto k d current next' ≡ ok tt
      → (validator_root crypto next ≡ validator_root crypto next')
        ⊎ (Conflict current c d ⊎ HashCollision crypto.sha256)
  transitions-agree h k c d current next next' a b one_height one_round first second =
      let x = accepted-Transition crypto h c current next first in
      let y = accepted-Transition crypto k d current next' second in
      elim (Bool-cases (bytes_eq c.header_hash d.header_hash)) [
        | inl same ↦
            elim (consensus_hash-next h k a b
              (sym x.header_hash ∙ (bytes_eq_iff _ _).0 same ∙ y.header_hash)) [
                | inl roots ↦ inl (x.next_root ∙ ap ok roots ∙ sym y.next_root)
                | inr collision ↦ inr (inr collision)
              ]
        | inr other ↦
            let (heavy, guilty) =
              conflicting-certificates crypto current c d x.certified y.certified
                (x.height ∙ one_height ∙ sym y.height) one_round
                (λ e. cc (sym other ∙ (bytes_eq_iff _ _).1 e)) in
            inr (inl (record { heavy = heavy; guilty = guilty }))
      ]
