-- ===== src/Codec/Reads.antt =====
-- What a parser reads: `Reads p w a` says that on an input that goes on with `w` the parser takes
-- exactly `w` and answers `a`, whatever stands before and behind. One rule for each reader.
use zephyr_chain.Base.{
  ℕ, ◌+◌, ◌≤◌, ◌≡◌, refl, ◌∙◌, ap, Bool, true, false, [], ◌∷◌, ◌++◌, append-nil, append_assoc,
  arith, Bytes, length, take, drop, length-append, take-append, drop-append, Result, ok, Error, ltb,
  not, ◌==◌,
}
use zephyr_chain.Codec.BigEndian.{
  IsU16, IsU32, IsU64, word_from, put_u16, put_u32, put_u64, word-put_u16, word-put_u32,
  word-put_u64, length-put_u16, length-put_u32, length-put_u64,
}
use zephyr_chain.Codec.Writer.{bool_byte}
use zephyr_chain.Codec.Reader
use zephyr_chain.Codec.Reader.{
  Reader, Parser, lift, pure, run, continue, ◌‼◌, ◌>>=◌, ◌>>◌, take_bytes, done, require_not,
}

-- The reader that has read `pre` and has `rest` to come.
abbrev pub at : Bytes → Bytes → Reader
at pre rest = record { payload = pre ++ rest; off = length pre }

pub record Reads {A : Type 0} (p : Parser A) (w : Bytes) (a : A) : Type 0 where
  pub apply : (pre rest : Bytes) → p (at pre (w ++ rest)) ≡ (ok a, at (pre ++ w) rest)

-- The parser takes the whole of `w` when nothing follows it.
pub record ReadsAll {A : Type 0} (p : Parser A) (w : Bytes) (a : A) : Type 0 where
  pub apply : (pre : Bytes) → (p (at pre w)).0 ≡ ok a

advance :
    (pre w rest : Bytes) (n : ℕ)
    → length w ≡ n
    → ◌≡◌ {A = Reader}
        (record { payload = pre ++ (w ++ rest); off = length pre + n })
        (at (pre ++ w) rest)
advance pre w rest n e = rw (append_assoc, length-append pre w, e)

take-middle :
    (pre w rest : Bytes) (n : ℕ)
    → length w ≡ n
    → take n (drop (length pre) (pre ++ (w ++ rest))) ≡ w
take-middle pre w rest n e = rw (drop-append pre (w ++ rest), ← e) (take-append w rest)

fits :
    (pre w rest : Bytes) (n : ℕ)
    → length w ≡ n
    → ltb (length (pre ++ (w ++ rest))) (length pre + n) ≡ false
fits pre w rest n e = ground (arith, length-append pre (w ++ rest), length-append w rest)

pub Reads-take : (n : ℕ) (w : Bytes) → length w ≡ n → Reads (take_bytes n) w w
unfolding take_bytes
Reads-take n w e = record {
  apply = λ pre rest. rw (fits pre w rest n e, take-middle pre w rest n e, advance pre w rest n e);
}

module _ {A : Type 0} where
  pub Reads-pure : (a : A) → Reads (pure a) [] a
  unfolding pure
  Reads-pure a = record { apply = λ pre rest. rw append-nil }

  pub Reads-lift : (r : Result A) (a : A) → r ≡ ok a → Reads (lift r) [] a
  unfolding lift
  Reads-lift r a e = record { apply = λ pre rest. rw (e, append-nil) }

  pub Reads-or : {p : Parser A} {w : Bytes} {a : A} (e : Error) → Reads p w a → Reads (p ‼ e) w a
  unfolding ◌‼◌
  Reads-or e h = record { apply = λ pre rest. rw (h.apply pre rest) }

  pub ReadsAll-lift : (r : Result A) (a : A) → r ≡ ok a → ReadsAll (lift r) [] a
  unfolding lift
  ReadsAll-lift r a e = record { apply = λ pre. e }

  pub run-ReadsAll : {p : Parser A} {w : Bytes} {a : A} → ReadsAll p w a → run p w ≡ ok a
  unfolding run
  run-ReadsAll h = h.apply []

module _ {A B : Type 0} {p : Parser A} (f : A → Parser B) {w v : Bytes} {a : A} {b : B} where
  pub Reads-bind : Reads p w a → Reads (f a) v b → Reads (p >>= f) (w ++ v) b
  unfolding ◌>>=◌
  Reads-bind h k = record {
    apply = λ pre rest.
        rw (append_assoc w v rest, ← append_assoc pre w v)
          (ap (continue f) (h.apply pre (v ++ rest)) ∙ k.apply (pre ++ w) rest);
  }

  pub ReadsAll-bind : Reads p w a → ReadsAll (f a) v b → ReadsAll (p >>= f) (w ++ v) b
  unfolding ◌>>=◌
  ReadsAll-bind h k = record {
    apply = λ pre.
        ap (λ (t : Result B × Reader). t.0) (ap (continue f) (h.apply pre v)) ∙ k.apply (pre ++ w);
  }

-- A check that passes, before the other reads.
module _ {B : Type 0} {q : Parser B} {w : Bytes} {b : B} where
  pub ReadsAll-require :
      (t : Bool) (e : Error) → t ≡ false → ReadsAll q w b → ReadsAll (require_not t e >> q) w b
  unfolding ◌>>=◌
  ReadsAll-require t e h k = record { apply = λ pre. rw h (k.apply pre) }

  pub Reads-require :
      (t : Bool) (e : Error) → t ≡ false → Reads q w b → Reads (require_not t e >> q) w b
  unfolding ◌>>=◌
  Reads-require t e h k = record { apply = λ pre rest. rw h (k.apply pre rest) }

pub at_end : (pre : Bytes) → not (length pre == length (pre ++ [])) ≡ false
at_end pre = rw append-nil (ground arith)

-- `r.Done()` passes where nothing is left.
pub ReadsAll-done :
    {B : Type 0} {q : Parser B} {b : B} (e : Error)
    → ReadsAll q [] b
    → ReadsAll (done ‼ e >> q) [] b
unfolding ◌>>=◌ done
ReadsAll-done e k = record { apply = λ pre. rw (at_end pre, ◌>>=◌) (k.apply pre) }

pub Reads-fixed : (n : ℕ) (w : Bytes) → length w ≡ n → Reads (Reader.fixed n) w w
unfolding Reader.fixed
Reads-fixed n w e = Reads-take n w e

module _ (n : ℕ) (put : ℕ → Bytes) (v : ℕ) (len : length (put v) ≡ n)
    (back : word_from 0 (put v) ≡ v) where
  Reads-word : Reads (take_bytes n >>= λ b. pure (word_from 0 b)) (put v) v
  unfolding ◌>>=◌
  Reads-word = record {
    apply = λ pre rest.
        ap (continue (λ b. pure (word_from 0 b))) ((Reads-take n (put v) len).apply pre rest)
        ∙ rw back;
  }

pub Reads-u16 : (v : ℕ) → IsU16 v → Reads Reader.u16 (put_u16 v) v
unfolding Reader.u16
Reads-u16 v h = Reads-word 2 put_u16 v (length-put_u16 v) (word-put_u16 v h)

pub Reads-u32 : (v : ℕ) → IsU32 v → Reads Reader.u32 (put_u32 v) v
unfolding Reader.u32
Reads-u32 v h = Reads-word 4 put_u32 v (length-put_u32 v) (word-put_u32 v h)

pub Reads-u64 : (v : ℕ) → IsU64 v → Reads Reader.u64 (put_u64 v) v
unfolding Reader.u64
Reads-u64 v h = Reads-word 8 put_u64 v (length-put_u64 v) (word-put_u64 v h)

pub Reads-u8 : (v : ℕ) → Reads Reader.u8 (v ∷ []) v
unfolding Reader.u8
Reads-u8 v = Reads-word 1 (λ x. x ∷ []) v refl (unfold word_from in omega arith)

pub Reads-bool : (v : Bool) → Reads Reader.bool (bool_byte v ∷ []) v
unfolding Reader.bool
Reads-bool true = Reads-bind _ (Reads-u8 1) (Reads-lift _ true refl)
Reads-bool false = Reads-bind _ (Reads-u8 0) (Reads-lift _ false refl)

-- A string within the limit, behind its length.
pub Reads-bytes :
    (max : ℕ) (v : Bytes)
    → length v ≤ max
    → IsU32 max
    → Reads (Reader.bytes max) (put_u32 (length v) ++ v) v
unfolding Reader.bytes
Reads-bytes max v h m =
    Reads-bind _ (Reads-u32 (length v) (omega arith))
      (Reads-require _ _ (ground arith) (Reads-take (length v) v refl))

pub Reads-string :
    (max : ℕ) (v : Bytes)
    → length v ≤ max
    → IsU32 max
    → Reads (Reader.string max) (put_u32 (length v) ++ v) v
unfolding Reader.string
Reads-string max v h m = Reads-bytes max v h m
