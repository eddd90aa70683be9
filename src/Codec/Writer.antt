-- ===== src/Codec/Writer.antt =====
-- `codec.Writer`: a buffer that only grows. `w ▷ op v` is the statement `w.Op(v)`.
use zephyr_chain.Base.{
  ℕ, ◌<◌, ◌%◌, ◌^◌, ◌≡◌, refl, arith, Bool, true, false, [], ◌∷◌, ◌++◌, if◌then◌else◌, Bytes,
  length,
}
use zephyr_chain.Codec.BigEndian.{put_u16, put_u32, put_u64}

pub record Writer : Type 0 where
  pub buf : Bytes

-- `var w codec.Writer`
abbrev pub empty : Writer
empty = record { buf = [] }

infixl 10 ◌▷◌
abbrev pub ◌▷◌ : Writer → (Writer → Writer) → Writer
w ▷ op = op w

unfoldable pub fixed : Bytes → Writer → Writer
fixed v w = record { buf = w.buf ++ v }

unfoldable pub u8 : ℕ → Writer → Writer
u8 v w = record { buf = w.buf ++ v ∷ [] }

unfoldable pub u16 : ℕ → Writer → Writer
u16 v w = record { buf = w.buf ++ put_u16 v }

unfoldable pub u32 : ℕ → Writer → Writer
u32 v w = record { buf = w.buf ++ put_u32 v }

unfoldable pub u64 : ℕ → Writer → Writer
u64 v w = record { buf = w.buf ++ put_u64 v }

unfoldable pub bool : Bool → Writer → Writer
unfolding u8
bool v w = if v then u8 1 w else u8 0 w

-- `w.U32(uint32(len(v)))` keeps the low 32 bits of the length.
unfoldable pub bytes : Bytes → Writer → Writer
unfolding u32 fixed
bytes v w = w ▷ u32 (length v % 2 ^ 32) ▷ fixed v

-- A string is written as its bytes.
unfoldable pub string : Bytes → Writer → Writer
unfolding bytes
string v w = bytes v w

-- Opening this opens the other operations but `bool`.
unfoldable pub bytes_copy : Writer → Bytes
unfolding fixed u8 u16 u32 u64 bytes string
bytes_copy w = w.buf

-- The length of a field that is shorter than 2 ^ 32 is written as it is.
pub short-length : (v : Bytes) → length v < 2 ^ 32 → length v % 2 ^ 32 ≡ length v
short-length v h = omega arith

-- The byte of a Boolean.
abbrev pub bool_byte : Bool → ℕ
bool_byte true = 1
bool_byte false = 0

pub bool-eq-u8 : (v : Bool) (w : Writer) → bool v w ≡ u8 (bool_byte v) w
unfolding bool
bool-eq-u8 true w = refl
bool-eq-u8 false w = refl
