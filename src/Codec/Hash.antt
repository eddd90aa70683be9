-- ===== src/Codec/Hash.antt =====
-- `codec.DomainHash`: the framed input of the hash. SHA-256 is the standard library's and stays a
-- parameter, a function from byte strings.
use zephyr_chain.Base.{
  ◌≡◌, ◌≢◌, ◌⊎◌, inl, inr, sym, ◌∙◌, refl, Bool-cases, bytes_eq, bytes_eq_iff, append-parts, ◌%◌,
  ◌^◌, ◌++◌, Bytes, length,
}
use zephyr_chain.Codec.BigEndian.{put_u32, length-put_u32}

-- What is written into the hash: the domain and the payload, each behind its length.
unfoldable pub domain_frame : Bytes → Bytes → Bytes
domain_frame domain payload =
    put_u32 (length domain % 2 ^ 32) ++ (domain ++ (put_u32 (length payload % 2 ^ 32) ++ payload))

unfoldable pub domain_hash : (Bytes → Bytes) → Bytes → Bytes → Bytes
domain_hash sha256 domain payload = sha256 (domain_frame domain payload)

-- Two byte strings of one hash.
pub record HashCollision (sha256 : Bytes → Bytes) : Type 0 where
  pub first : Bytes
  pub second : Bytes
  pub differ : first ≢ second
  pub same : sha256 first ≡ sha256 second

pub domain_hash-cases :
    (sha256 : Bytes → Bytes) (d e p q : Bytes)
    → domain_hash sha256 d p ≡ domain_hash sha256 e q
    → (domain_frame d p ≡ domain_frame e q) ⊎ HashCollision sha256
unfolding domain_hash
domain_hash-cases sha256 d e p q h =
    elim (Bool-cases (bytes_eq (domain_frame d p) (domain_frame e q))) [
      | inl equal ↦ inl ((bytes_eq_iff _ _).0 equal)
      | inr other ↦ inr (record {
        first = domain_frame d p;
        second = domain_frame e q;
        differ = λ k. cc (sym other ∙ (bytes_eq_iff _ _).1 k);
        same = h;
      })
    ]

pub domain_frame-payload : (d p q : Bytes) → domain_frame d p ≡ domain_frame d q → p ≡ q
unfolding domain_frame
domain_frame-payload d p q e =
    let body = (append-parts (put_u32 (length d % 2 ^ 32)) _ _ _ refl e).1 in
    let framed = (append-parts d _ d _ refl body).1 in
    (append-parts (put_u32 (length p % 2 ^ 32)) p (put_u32 (length q % 2 ^ 32)) q
      (length-put_u32 _ ∙ sym (length-put_u32 _)) framed).1

-- One domain, two payloads of one hash.
pub domain_hash-payload :
    (sha256 : Bytes → Bytes) (d p q : Bytes)
    → domain_hash sha256 d p ≡ domain_hash sha256 d q
    → (p ≡ q) ⊎ HashCollision sha256
domain_hash-payload sha256 d p q h = elim (domain_hash-cases sha256 d d p q h) [
  | inl e ↦ inl (domain_frame-payload d p q e)
  | inr c ↦ inr c
]
