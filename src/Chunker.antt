-- ===== src/Chunker.antt =====
-- internal/chunker/chunker.go: splitting a byte stream where a rolling hash of its last bytes says so.
mod Sizes
unfoldable pub use Sizes.*
mod Table
pub mod Contents
pub mod Chunks
pub mod Emit
use Table.{table}
use vestige.Prelude.{
  ℕ, ◌+◌, ◌-◌, ◌*◌, ◌/◌, ◌%◌, ◌^◌, bit_and, bit_or, bit_xor, ℤ, pos, pos_part, ltb_ℤ, Bool, not,
  ◌&&◌, ◌||◌, Bytes, List, [], ◌∷◌, ◌++◌, ltb, leb, nat_eq, if◌then◌else◌, length, get_or, set,
  replicate, is_empty,
}
use vestige.Errors.{Error, Result, ok, err, message, fail_if}
use vestige.Actions.{Action, ◌>>=◌, ◌>>◌, pure, raise, lift}

-- bits.RotateLeft64
unfoldable pub rotate_left64 : ℕ → ℕ → ℕ
rotate_left64 x k = let s = k % 64 in bit_or (x * 2 ^ s % 2 ^ 64) (x / 2 ^ (64 - s))

-- table[b]
unfoldable pub table_at : ℕ → ℕ
table_at b = get_or 0 table b

-- The variables of the loop. `buf` is the chunk that is being collected.
pub record State : Type 0 where
  pub buf : Bytes
  pub window : Bytes
  pub fingerprint : ℕ
  pub seen : ℕ
  pub pos : ℕ

unfoldable pub start : Config → State
start c = record {
  buf = [];
  window = replicate (pos_part c.window) 0;
  fingerprint = 0;
  seen = 0;
  pos = 0;
}

-- One byte goes into the buffer, the window and the fingerprint.
unfoldable pub absorb : Config → State → ℕ → State
absorb c s b =
    if ltb s.seen (pos_part c.window)
    then record {
      buf = s.buf ++ b ∷ [];
      window = set s.window s.seen b;
      fingerprint = bit_xor (rotate_left64 s.fingerprint 1) (table_at b);
      seen = s.seen + 1;
      pos = s.pos;
    }
    else record {
      buf = s.buf ++ b ∷ [];
      window = set s.window s.pos b;
      fingerprint =
          bit_xor (bit_xor (rotate_left64 s.fingerprint 1) (table_at b))
            (rotate_left64 (table_at (get_or 0 s.window s.pos)) (pos_part c.window % 64));
      seen = s.seen;
      pos = (s.pos + 1) % pos_part c.window;
    }

-- The test for a boundary after a byte.
unfoldable pub at_boundary : Config → State → Bool
at_boundary c s =
    leb (pos_part c.max_size) (length s.buf)
    || (leb (pos_part c.min_size) (length s.buf)
        && leb (pos_part c.window) s.seen
        && nat_eq (bit_and s.fingerprint (pos_part c.target_size - 1)) 0)

-- What an io.Reader gives, one call of Read after another. A call may return bytes and an error.
pub data Reader : Type 0 where
  more : Bytes → Reader → Reader
  eof : Bytes → Reader
  failed : Bytes → Error → Reader

module _ {E : Type 0} (emit : Bytes → Action E (Unit {0})) where
  unfoldable pub flush : State → Action E State
  flush s = if is_empty s.buf then pure s else do emit s.buf; pure (record s { buf = [] })

  unfoldable pub process_byte : Config → State → ℕ → Action E State
  unfolding flush
  process_byte c s b = let s' = absorb c s b in if at_boundary c s' then flush s' else pure s'

  -- The loop over `readBuf[:n]`.
  unfoldable pub process : Config → Bytes → State → Action E State
  process c [] s = pure s
  process c (b ∷ bs) s = do s' ← process_byte c s b; process c bs s'

  unfoldable pub read_loop : Config → Reader → State → Action E State
  read_loop c (more bs r) s = do s' ← process c bs s; read_loop c r s'
  read_loop c (eof bs) s = do s' ← process c bs s; flush s'
  read_loop c (failed bs e) s = do s' ← process c bs s; raise e

  unfoldable pub split : Config → Reader → Action E State
  unfolding read_loop
  split c r = do lift (validate c); read_loop c r (start c)
