-- ===== src/Codec/Accepts.antt =====
-- What each reader accepts, on the rules of Codec/Combine.antt for the combinators, whose names this
-- file passes on.
pub use zephyr_chain.Codec.Combine.{
  Took, Accepts, AcceptsAll, AcceptsNil, Accepts-bind, AcceptsAll-bind, Accepts-weaken,
  Accepts-lift, AcceptsAll-lift, Accepts-or, run-AcceptsAll, Accepts-require, AcceptsAll-require,
}
use zephyr_chain.Base.{
  ℕ, ◌+◌, ◌≤◌, ◌<◌, ◌^◌, ◌≡◌, refl, sym, ◌∙◌, ap, Bool, true, [], ◌∷◌, ◌++◌, append-nil,
  append_assoc, inl, inr, arith, Bytes, IsBytes, All-append_left, length, take, drop, length-append,
  length-take, take-append-drop, drop-append, Result, ok, Error, ltb, not, ◌==◌, Bool-cases,
}
use zephyr_chain.Codec.BigEndian.{
  word_from, put_u16, put_u32, put_u64, put_u16-word, put_u32-word, put_u64-word,
}
use zephyr_chain.Codec.Reader
use zephyr_chain.Codec.Reader.{
  Reader, Parser, lift, pure, run, continue, rethrow, bool_of, ◌‼◌, ◌>>=◌, ◌>>◌, take_bytes, done,
  require_not,
}
use zephyr_chain.Codec.Writer.{bool_byte}
use zephyr_chain.Codec.Reads.{at, at_end}

-- The prefix that `take_bytes n` answers.
abbrev pub Taken : ℕ → Bytes → Bytes → Type 0
Taken n a w = (w ≡ a) × (length a ≡ n) × IsBytes a

length-take-le : (n : ℕ) (s : Bytes) → n ≤ length s → length (take n s) ≡ n
length-take-le n s h = omega (arith, length-take n s)

Took-take :
    (n : ℕ) (pre s : Bytes)
    → n ≤ length s
    → Took pre s (take n s) (drop n s) (record { payload = pre ++ s; off = length pre + n })
Took-take n pre s h = record {
  split = sym (take-append-drop n s);
  after =
      rw (append_assoc, take-append-drop n s, length-append pre (take n s), length-take-le n s h);
}

take-result :
    (n : ℕ) (pre s : Bytes) (a : Bytes) (r : Reader)
    → take_bytes n (at pre s) ≡ (ok a, r)
    → (n ≤ length s)
      × (take n s ≡ a)
      × (◌≡◌ {A = Reader} (record { payload = pre ++ s; off = length pre + n }) r)
unfolding take_bytes
take-result n pre s a r e = elim (Bool-cases (ltb (length (pre ++ s)) (length pre + n))) [
  | inl short ↦ absurd (cc (ap (λ (t : Result Bytes × Reader). t.0) (rw short at e)))
  | inr fits ↦
      let e' : ◌≡◌ {A = Result Bytes × Reader}
          (
            ok (take n (drop (length pre) (pre ++ s))),
            record { payload = pre ++ s; off = length pre + n },
          )
          (ok a, r) =
        rw fits at e in
      (
        ground (arith, length-append pre s),
        rw drop-append at (ok_inj (ap (λ (t : Result Bytes × Reader). t.0) e')),
        ap (λ (t : Result Bytes × Reader). t.1) e',
      )
]
  where
    ok_inj : {x y : Bytes} → ◌≡◌ {A = Result Bytes} (ok x) (ok y) → x ≡ y
    ok_inj h = cc

pub Accepts-take : (n : ℕ) → Accepts (take_bytes n) (Taken n)
Accepts-take n = record {
  apply = λ pre s a r bs e.
      let (h, e1, e2) = take-result n pre s a r e in
      (
        take n s,
        drop n s,
        rw (← e2) (Took-take n pre s h),
        (
          e1,
          rw (← e1) (length-take-le n s h),
          rw (← e1) (All-append_left _ (take n s) (drop n s) (rw (take-append-drop n s) bs)),
        ),
      );
}

pub Accepts-fixed : (n : ℕ) → Accepts (Reader.fixed n) (Taken n)
unfolding Reader.fixed
Accepts-fixed n = Accepts-take n

pub Accepts-pure : {A : Type 0} {Q : A → Bytes → Type 0} (a : A) → Q a [] → Accepts (pure a) Q
unfolding pure lift
Accepts-pure {A} {Q} a q = Accepts-weaken (λ b w h. rw (h.1, ← ok_inj h.0) q) (Accepts-lift (ok a))
  where
    ok_inj : {x y : A} → ◌≡◌ {A = Result A} (ok x) (ok y) → x ≡ y
    ok_inj h = cc

-- `w` is the encoding of the word `v`, which is in range.
abbrev pub Word : (ℕ → Bytes) → ℕ → ℕ → Bytes → Type 0
Word put bound v w = (w ≡ put v) × (v < bound)

module _ (n bound : ℕ) (put : ℕ → Bytes)
    (canonical : (bs : Bytes)
      → length bs ≡ n
      → IsBytes bs
      → (put (word_from 0 bs) ≡ bs) × (word_from 0 bs < bound)) where
  Accepts-Word : Accepts (take_bytes n >>= λ b. pure (word_from 0 b)) (Word put bound)
  Accepts-Word =
      Accepts-bind (λ b. pure (word_from 0 b)) {P = Taken n} {Q = Word put bound} (Accepts-take n)
        (λ b w t.
          let (back, range) = canonical b t.1 t.2 in
          Accepts-pure (word_from 0 b) (rw append-nil (t.0 ∙ sym back), range))

pub Accepts-u16 : Accepts Reader.u16 (Word put_u16 (2 ^ 16))
unfolding Reader.u16
Accepts-u16 = Accepts-Word 2 (2 ^ 16) put_u16 put_u16-word

pub Accepts-u32 : Accepts Reader.u32 (Word put_u32 (2 ^ 32))
unfolding Reader.u32
Accepts-u32 = Accepts-Word 4 (2 ^ 32) put_u32 put_u32-word

pub Accepts-u64 : Accepts Reader.u64 (Word put_u64 (2 ^ 64))
unfolding Reader.u64
Accepts-u64 = Accepts-Word 8 (2 ^ 64) put_u64 put_u64-word

byte_word :
    (bs : Bytes)
    → length bs ≡ 1
    → IsBytes bs
    → ((word_from 0 bs ∷ []) ≡ bs) × (word_from 0 bs < 2 ^ 8)
unfolding word_from
byte_word (b ∷ []) e h = ground arith
byte_word [] e h = absurd (omega arith)
byte_word (a ∷ b ∷ bs) e h = absurd (omega arith)

pub Accepts-u8 : Accepts Reader.u8 (Word (λ v. v ∷ []) (2 ^ 8))
unfolding Reader.u8
Accepts-u8 = Accepts-Word 1 (2 ^ 8) (λ v. v ∷ []) byte_word

bool_of-byte : (v : ℕ) (b : Bool) → bool_of v ≡ ok b → v ≡ bool_byte b
bool_of-byte v b h = ground arith

pub Accepts-bool : Accepts Reader.bool (λ b w. w ≡ bool_byte b ∷ [])
unfolding Reader.bool
Accepts-bool = Accepts-bind _ Accepts-u8 λ v w e.
    Accepts-weaken (λ b w' h. rw (e.0, h.1, bool_of-byte v b h.0)) (Accepts-lift (bool_of v))

-- `w` is the length and the bytes of `v`, which is within the limit.
abbrev pub Framed : ℕ → Bytes → Bytes → Type 0
Framed max v w = (w ≡ put_u32 (length v) ++ v) × (length v ≤ max) × (length v < 2 ^ 32) × IsBytes v

pub Accepts-bytes : (max : ℕ) → Accepts (Reader.bytes max) (Framed max)
unfolding Reader.bytes
Accepts-bytes max = Accepts-bind _ Accepts-u32 λ n w e. Accepts-require _ _ λ within.
    Accepts-weaken (λ v w' h. (rw (e.0, h.0, h.1), ground arith, ground arith, h.2))
      (Accepts-take n)

pub Accepts-string : (max : ℕ) → Accepts (Reader.string max) (Framed max)
unfolding Reader.string
Accepts-string max = Accepts-bytes max

not_at_end : (pre : Bytes) (x : ℕ) (s : Bytes) → not (length pre == length (pre ++ x ∷ s)) ≡ true
not_at_end pre x s = ground (arith, length-append pre (x ∷ s))

done-inv :
    {B : Type 0} (q : Parser B) (e : Error) (pre s : Bytes) (b : B)
    → (continue (λ (u : Unit {0}). q) ((done ‼ e) (at pre s))).0 ≡ ok b
    → (s ≡ []) × ((q (at pre s)).0 ≡ ok b)
unfolding done ◌‼◌
done-inv q e pre [] b h = (refl, rw (at_end pre) at h)
done-inv q e pre (x ∷ s) b h = absurd (cc (rw (not_at_end pre x s) at h))

pub AcceptsAll-done :
    {B : Type 0} {q : Parser B} {Q : B → Bytes → Type 0} (e : Error)
    → AcceptsNil q Q
    → AcceptsAll (done ‼ e >> q) Q
unfolding ◌>>=◌
AcceptsAll-done {B} {q} {Q} e h = record {
  apply = λ pre s b bs x.
      let (nil, rest) = done-inv q e pre s b x in rw nil (h.apply pre b (rw nil at rest));
}
