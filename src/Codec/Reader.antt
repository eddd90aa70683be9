-- ===== src/Codec/Reader.antt =====
-- `codec.Reader`: a payload and an offset. A read returns the new reader beside the result or the
-- error, since a failed read of a length leaves the offset behind that length.
use zephyr_chain.Base.{
  ℕ, ◌+◌, Bool, true, false, ltb, ◌==◌, not, if◌then◌else◌, Bytes, length, take, drop, Result, ok,
  err, Error, fail_if, or_error,
}
use zephyr_chain.Base.{unexpected_eof, trailing_data, length_limit, invalid_bool}
use zephyr_chain.Codec.BigEndian.{word_from}

pub record Reader : Type 0 where
  pub payload : Bytes
  pub off : ℕ

abbrev pub new_reader : Bytes → Reader
new_reader payload = record { payload = payload; off = 0 }

abbrev pub Parser : Type 0 → Type 0
Parser A = Reader → Result A × Reader

module _ {A : Type 0} where
  unfoldable pub lift : Result A → Parser A
  lift m r = (m, r)

  unfoldable pub pure : A → Parser A
  pure a r = (ok a, r)

  abbrev pub rethrow : Error → Result A × Reader → Result A × Reader
  rethrow e (x, r) = (or_error x e, r)

  infixl 6 ◌‼◌
  -- `if err != nil { return e }`
  unfoldable pub ◌‼◌ : Parser A → Error → Parser A
  ◌‼◌ p e r = rethrow e (p r)

  -- A parse of a whole payload, as the callers start it.
  unfoldable pub run : Parser A → Bytes → Result A
  run p payload = (p (new_reader payload)).0

abbrev pub continue : {A B : Type 0} → (A → Parser B) → Result A × Reader → Result B × Reader
continue f (ok a, r) = f a r
continue f (err e, r) = (err e, r)

infixl 5 ◌>>=◌ ◌>>◌
-- Opening this opens the other combinators.
unfoldable pub ◌>>=◌ : {A B : Type 0} → Parser A → (A → Parser B) → Parser B
unfolding lift pure ◌‼◌ run
◌>>=◌ p f r = continue f (p r)

abbrev pub ◌>>◌ : {B : Type 0} → Parser (Unit {0}) → Parser B → Parser B
p >> q = p >>= λ _. q

-- `if cond { return e }` between two reads
abbrev pub require_not : Bool → Error → Parser (Unit {0})
require_not b e = lift (fail_if b e)

-- The readers of a Go `int` never see a negative count or a sum that overflows: every count is a
-- constant or a `uint32`.
unfoldable pub take_bytes : ℕ → Parser Bytes
take_bytes n r =
    if ltb (length r.payload) (r.off + n)
    then (err unexpected_eof, r)
    else (ok (take n (drop r.off r.payload)), record r { off = r.off + n })

unfoldable pub u8 : Parser ℕ
unfolding ◌>>=◌ take_bytes word_from
u8 = do b ← take_bytes 1; pure (word_from 0 b)

unfoldable pub u16 : Parser ℕ
unfolding ◌>>=◌ take_bytes word_from
u16 = do b ← take_bytes 2; pure (word_from 0 b)

unfoldable pub u32 : Parser ℕ
unfolding ◌>>=◌ take_bytes word_from
u32 = do b ← take_bytes 4; pure (word_from 0 b)

unfoldable pub u64 : Parser ℕ
unfolding ◌>>=◌ take_bytes word_from
u64 = do b ← take_bytes 8; pure (word_from 0 b)

abbrev pub bool_of : ℕ → Result Bool
bool_of v = if v == 0 then ok false else if v == 1 then ok true else err invalid_bool

unfoldable pub bool : Parser Bool
unfolding ◌>>=◌ u8
bool = do v ← u8; lift (bool_of v)

unfoldable pub fixed : ℕ → Parser Bytes
unfolding take_bytes
fixed n = take_bytes n

unfoldable pub bytes : ℕ → Parser Bytes
unfolding ◌>>=◌ u32 take_bytes
bytes max = do n ← u32; require_not (ltb max n) length_limit; take_bytes n

unfoldable pub string : ℕ → Parser Bytes
unfolding bytes
string max = bytes max

unfoldable pub done : Parser (Unit {0})
done r = (fail_if (not (r.off == length r.payload)) trailing_data, r)
