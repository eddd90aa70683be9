-- ===== src/Tests/Trees.antt =====
-- Merkle proofs, shards and identifiers.
use zephyr_chain.Base.{◌≡◌, ◌⊎◌, refl, true, List, [], ◌∷◌, All, arith, ok, err, codes}
use zephyr_chain.Types.{Hash}
use zephyr_chain.Merkle.{Proof, root, build_proof, verify, get_or_empty}
use zephyr_chain.Codec.BigEndian
use zephyr_chain.Codec.Hash
use zephyr_chain.Codec.Hash.{HashCollision}
use zephyr_chain.Merkle
use zephyr_chain.Merkle.Proofs.{verify-build_proof}
use zephyr_chain.Merkle.Sound.{Sized, verify_sound}
use zephyr_chain.Tests.Common.{toy_sha256, toy_sized, filled}

abbrev leaves : List Hash
leaves = filled 1 ∷ filled 2 ∷ filled 3 ∷ []

-- The sibling of the third leaf is the empty one.
abbrev proof_of_third : Proof
proof_of_third = elim (build_proof toy_sha256 leaves 2) [
  | ok p ↦ p
  | err _ ↦ record { index = 0; leaf_count = 0; siblings = [] }
]

third-built : build_proof toy_sha256 leaves 2 ≡ ok proof_of_third
unfolding build_proof
third-built = refl

verify-build_proof_example :
    verify toy_sha256 (root toy_sha256 leaves) (get_or_empty leaves 2) proof_of_third ≡ true
verify-build_proof_example =
    verify-build_proof toy_sha256 leaves 2 proof_of_third (omega arith) third-built

third-verifies : verify toy_sha256 (root toy_sha256 leaves) (filled 3) proof_of_third ≡ true
unfolding get_or_empty
third-verifies = verify-build_proof toy_sha256 leaves 2 proof_of_third (omega arith) third-built

third-count : proof_of_third.leaf_count ≡ 3
unfolding build_proof
third-count = refl

third_siblings-Sized : All Sized proof_of_third.siblings
unfolding build_proof Merkle.next_power_of_two Merkle.empty_leaf Merkle.branch Hash.domain_hash
    Hash.domain_frame BigEndian.put_u32 codes
third_siblings-Sized = (refl, (refl, tt))

verify_sound_example :
    (filled 3 ≡ get_or_empty leaves proof_of_third.index) ⊎ HashCollision toy_sha256
verify_sound_example =
    verify_sound toy_sha256 toy_sized leaves (filled 3) proof_of_third (refl, (refl, (refl, tt)))
      refl third_siblings-Sized third-count third-verifies
