-- ===== src/Buffer/Bounds.antt =====
-- Buffer.h: the representation invariant, and what the three sizes are under it.
use event_loop.Prelude.{ℕ, ◌+◌, ◌-◌, ◌≤◌, ◌≡◌, arith, length, length-take, length-drop, slice, drop}
use event_loop.Buffer.{
  Buffer, cheap_prepend, max_size, readable_bytes, writable_bytes, prependable_bytes, contents,
}

-- 0 <= readerIndex <= writerIndex <= size, in a vector that has room for the prepended bytes.
pub record IsValid (b : Buffer) : Type 0 where
  pub ordered : b.reader_index ≤ b.writer_index
  pub inside : b.writer_index ≤ length b.buffer
  pub roomy : cheap_prepend ≤ length b.buffer
  pub small : length b.buffer ≤ max_size

pub readable_bytes-eq :
    {b : Buffer} → IsValid b → readable_bytes b ≡ b.writer_index - b.reader_index
unfolding readable_bytes
readable_bytes-eq v = omega arith

pub writable_bytes-eq :
    {b : Buffer} → IsValid b → writable_bytes b ≡ length b.buffer - b.writer_index
unfolding writable_bytes
writable_bytes-eq v = omega arith

pub length-slice : (xs : _) (i n : ℕ) → i + n ≤ length xs → length (slice {A = ℕ} xs i n) ≡ n
length-slice xs i n h = omega (arith, length-take n (drop i xs), length-drop i xs)

pub length-contents :
    {b : Buffer} → IsValid b → length (contents b) ≡ b.writer_index - b.reader_index
length-contents {b} v =
    length-slice b.buffer b.reader_index (b.writer_index - b.reader_index) (omega arith)

-- In a buffer that meets the invariant the three sizes are those of the three parts of the vector:
-- no difference wraps, the readable bytes are as many as the contents, and the sizes add up.
pub sizes_lem :
    {b : Buffer}
    → IsValid b
    → (readable_bytes b ≡ length (contents b))
      × (prependable_bytes b + readable_bytes b + writable_bytes b ≡ length b.buffer)
unfolding prependable_bytes
sizes_lem v = omega (arith, length-contents v, readable_bytes-eq v, writable_bytes-eq v)
