-- ===== src/Signing/Header.antt =====
-- The header of the journal of internal/v2/consensus/signing_guard.go, written and read.
use zephyr_chain.Base.{
  ℕ, suc, ◌≡◌, refl, sym, ◌∙◌, ap, false, ltb, ◌∷◌, ◌++◌, append_assoc, arith, Bytes, length, take,
  drop, length-append, take-append, drop-append, codes, bytes_eq_iff, ok,
}
use zephyr_chain.Codec.Writer
use zephyr_chain.Signing.{replay, replay_records, check_header, header_layout, fresh_memory}

module _ (sha256 : Bytes → Bytes) (network validator : Bytes) (n : length network ≡ 32)
    (v : length validator ≡ 32) where
  -- The magic, the version, and the two identifiers.
  flat :
      (body : Bytes)
      → header_layout network validator ++ body
        ≡ 90 ∷ 83 ∷ 71 ∷ 50 ∷ 1 ∷ (network ++ (validator ++ body))
  unfolding Writer.bytes_copy codes
  flat body = simp append_assoc

  network_of : (body : Bytes) → take 32 (network ++ (validator ++ body)) ≡ network
  network_of body = rw (← n) (take-append network (validator ++ body))

  behind_network : (body : Bytes) → drop 32 (network ++ (validator ++ body)) ≡ validator ++ body
  behind_network body = rw (← n) (drop-append network (validator ++ body))

  validator_of : (body : Bytes) → take 32 (validator ++ body) ≡ validator
  validator_of body = rw (← v) (take-append validator body)

  long :
      (body : Bytes)
      → ltb (length (90 ∷ 83 ∷ 71 ∷ 50 ∷ 1 ∷ (network ++ (validator ++ body)))) 69 ≡ false
  long body =
      ground (arith, length-append network (validator ++ body), length-append validator body)

  header-accepted :
      (body : Bytes)
      → check_header network validator (header_layout network validator ++ body) ≡ ok tt
  unfolding check_header codes
  header-accepted body =
      ap (check_header network validator) (flat body)
      ∙ rw
          (
            long body,
            network_of body,
            behind_network body,
            validator_of body,
            (bytes_eq_iff network network).1 refl,
            (bytes_eq_iff validator validator).1 refl,
          )
          refl

  behind_header : (body : Bytes) → drop 69 (header_layout network validator ++ body) ≡ body
  behind_header body =
      ap (drop 69) (flat body)
      ∙ ap (drop 64) (sym (append_assoc network validator body))
      ∙ ap (λ (k : ℕ). drop k ((network ++ validator) ++ body)) (sym both)
      ∙ drop-append (network ++ validator) body
    where
      both : length (network ++ validator) ≡ 64
      both = omega (arith, length-append network validator)

  -- The replay of a journal is the replay of its records.
  pub replay-header :
      (body : Bytes)
      → replay sha256 network validator (header_layout network validator ++ body)
        ≡ replay_records sha256
            (suc (length (header_layout network validator ++ body)))
            fresh_memory
            body
  unfolding replay
  replay-header body = rw (header-accepted body, behind_header body) refl
