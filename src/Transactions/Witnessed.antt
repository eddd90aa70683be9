-- ===== src/Transactions/Witnessed.antt =====
-- `VerifyWitnesses` against the root of a store of objects.
use zephyr_chain.Base.{
  ◌≡◌, refl, sym, ◌∙◌, ap, Bool, true, false, not, ◌||◌, ◌⊎◌, inl, inr, Option, none, some, List,
  [], ◌∷◌, ◌==◌, Bytes, bytes_eq, bytes_eq_iff, length, All, Result, ok, err, fail_if, ◌>>◌,
  fail_if-eq-ok, invalid_witness, arith,
}
use zephyr_chain.Codec.Hash.{HashCollision, domain_hash-payload}
use zephyr_chain.Types.{Hash, ObjectId, IsHash}
use zephyr_chain.Object.{Object, canonical_bytes, object_hash}
use zephyr_chain.State
use zephyr_chain.State.Binding.{Sized}
use zephyr_chain.Consensus.Validators.{Crypto}
use zephyr_chain.World.{MemoryStore, get_object, root}
use zephyr_chain.World.Commits.{hash_of}
use zephyr_chain.World.Reach.{Reachable, verify-stored}
use zephyr_chain.Transactions.{
  Transaction, InputRef, Witness, verify_witness, verify_each, verify_witnesses,
}

-- The store has, under the identifier of a witness, an object with the canonical bytes of the witness.
unfoldable pub StoredIn : MemoryStore → Witness → Type 0
StoredIn m w =
    (o : Object) × (get_object m w.object.id ≡ some o)
    × (canonical_bytes o ≡ canonical_bytes w.object)

-- The identifiers and the siblings have 32 bytes, as the arrays of the source do.
abbrev pub SizedWitness : Witness → Type 0
SizedWitness w = IsHash w.object.id × All Sized w.proof.siblings

module _ (crypto : Crypto) (sized : (x : Bytes) → length (crypto.sha256 x) ≡ 32) (m : MemoryStore)
    (reached : Reachable crypto.sha256 m) where
  same_hash :
      (w : Witness) (found : Option Object)
      → get_object m w.object.id ≡ found
      → some (object_hash crypto.sha256 w.object) ≡ hash_of crypto.sha256 found
      → StoredIn m w ⊎ HashCollision crypto.sha256
  unfolding StoredIn object_hash
  same_hash w none e h = absurd cc
  same_hash w (some o) e h =
      elim (domain_hash-payload crypto.sha256 _ (canonical_bytes o) (canonical_bytes w.object)
        (sym (injective h))) [ inl same ↦ inl (o, e, same) | inr c ↦ inr c ]
    where
      injective : {x y : Hash} → some x ≡ some y → x ≡ y
      injective k = cc

  verify_witness-stored :
      (i : InputRef) (w : Witness)
      → SizedWitness w
      → verify_witness crypto (root crypto.sha256 m) i w ≡ ok tt
      → StoredIn m w ⊎ HashCollision crypto.sha256
  unfolding verify_witness
  verify_witness-stored i w fits h =
      let (same_id, verified) =
        parts (bytes_eq w.object.id i.object_id) (w.object.version == i.version)
          (bytes_eq (object_hash crypto.sha256 w.object) i.object_hash) _ (fail_if-eq-ok _ _ h) in
      let named = (bytes_eq_iff w.object.id i.object_id).0 same_id in
      elim (verify-stored crypto.sha256 sized m w.object.id w.object w.proof reached fits.0 fits.1 (
        ap
          (λ (id : ObjectId).
            State.verify crypto.sha256 (root crypto.sha256 m) id
              (some (object_hash crypto.sha256 w.object)) w.proof)
          named
        ∙ verified)) [ inl same ↦ same_hash w (get_object m w.object.id) refl same | inr c ↦ inr c ]
    where
      parts :
          (a b c d : Bool) → (not a || not b || not c || not d) ≡ false → (a ≡ true) × (d ≡ true)
      parts a b c d e = ground arith

  verify_each-stored :
      (inputs : List InputRef) (witnesses : List Witness)
      → All SizedWitness witnesses
      → verify_each crypto (root crypto.sha256 m) inputs witnesses ≡ ok tt
      → All (StoredIn m) witnesses ⊎ HashCollision crypto.sha256
  unfolding verify_each
  verify_each-stored [] [] fits h = inl tt
  verify_each-stored [] (w ∷ witnesses) fits h = absurd cc
  verify_each-stored (i ∷ inputs) [] fits h = inl tt
  verify_each-stored (i ∷ inputs) (w ∷ witnesses) fits h =
      let (first, rest) =
        both (verify_witness crypto (root crypto.sha256 m) i w)
          (verify_each crypto (root crypto.sha256 m) inputs witnesses) h in
      elim (verify_witness-stored i w fits.0 first) [
        | inr c ↦ inr c
        | inl stored ↦ elim (verify_each-stored inputs witnesses fits.1 rest) [
          | inl others ↦ inl (stored, others)
          | inr c ↦ inr c
        ]
      ]
    where
      both : (a b : Result (Unit {0})) → a >> b ≡ ok tt → (a ≡ ok tt) × (b ≡ ok tt)
      both (ok tt) b k = (refl, k)
      both (err e) b k = absurd cc

  -- When `VerifyWitnesses` accepts a transaction whose state root is the root of a store that calls of `Apply`
  -- made out of an empty one, every witness is an object of the store: the store has under its identifier an
  -- object with the same canonical bytes. Or there are two byte strings of one SHA-256 hash. The results of
  -- SHA-256, the identifiers and the siblings have 32 bytes.
  pub verify_witnesses-stored :
      (t : Transaction)
      → t.state_root ≡ root crypto.sha256 m
      → All SizedWitness t.witnesses
      → verify_witnesses crypto t ≡ ok tt
      → All (StoredIn m) t.witnesses ⊎ HashCollision crypto.sha256
  unfolding verify_witnesses
  verify_witnesses-stored t at_root fits h = verify_each-stored t.inputs t.witnesses fits (
      ap (λ (r : Hash). verify_each crypto r t.inputs t.witnesses) (sym at_root)
      ∙ counted (not (length t.witnesses == length t.inputs))
          (verify_each crypto t.state_root t.inputs t.witnesses) h)
    where
      counted :
          (b : Bool) (r : Result (Unit {0})) → fail_if b invalid_witness >> r ≡ ok tt → r ≡ ok tt
      counted true r k = absurd cc
      counted false r k = k
