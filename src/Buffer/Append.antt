-- ===== src/Buffer/Append.antt =====
-- Buffer.h: `append` and `prepend` put bytes behind and before the contents.
use event_loop.Prelude.{
  ℕ, ◌+◌, ◌-◌, ◌≤◌, ◌<◌, ◌≡◌, ap, ◌∙◌, List, ◌++◌, ok, err, assertion_failed, arith, length, slice,
  write_at, slice-write_at_end, slice-write_at_front, length-write_at,
}
use event_loop.Buffer.{
  Buffer, max_size, contents, ensure_writable_bytes, has_written, append, prepend,
}
use event_loop.Buffer.Bounds.{IsValid, writable_bytes-eq}
use event_loop.Buffer.Moves.{ensure_writable_bytes_lem}

-- What `append` leaves: a valid buffer, with the new bytes behind the old contents, in a vector that
-- is longer by no more than their number.
pub record Appended (b : Buffer) (bytes : List ℕ) (b' : Buffer) : Type 0 where
  pub valid : IsValid b'
  pub joined : contents b' ≡ contents b ++ bytes
  pub bounded : length b'.buffer ≤ length b.buffer + length bytes

has_written-eq :
    {b : Buffer} (len : ℕ)
    → IsValid b
    → len ≤ length b.buffer - b.writer_index
    → has_written b len ≡ ok (record b { writer_index = b.writer_index + len })
unfolding has_written
has_written-eq {b} len v h = ground arith

abbrev pub written : Buffer → List ℕ → Buffer
written b bytes = record b {
  buffer = write_at b.buffer b.writer_index bytes;
  writer_index = b.writer_index + length bytes;
}

pub contents-written :
    {b : Buffer} (bytes : List ℕ)
    → IsValid b
    → length bytes ≤ length b.buffer - b.writer_index
    → contents (written b bytes) ≡ contents b ++ bytes
contents-written {b} bytes v h =
    ap (slice (written b bytes).buffer b.reader_index)
      {x = b.writer_index + length bytes - b.reader_index} (omega arith)
    ∙ ap
        (λ i.
          slice (write_at b.buffer i bytes) b.reader_index
            (b.writer_index - b.reader_index + length bytes))
        (omega arith)
    ∙ slice-write_at_end b.buffer bytes b.reader_index (b.writer_index - b.reader_index)
        (omega arith)

pub written-IsValid :
    {b : Buffer} (bytes : List ℕ)
    → IsValid b
    → length bytes ≤ length b.buffer - b.writer_index
    → IsValid (written b bytes)
written-IsValid {b} bytes v h = omega (arith, length-write_at b.buffer b.writer_index bytes)

has_written-written :
    {b : Buffer} (bytes : List ℕ)
    → IsValid b
    → length bytes ≤ length b.buffer - b.writer_index
    → has_written (record b { buffer = write_at b.buffer b.writer_index bytes }) (length bytes)
      ≡ ok (written b bytes)
has_written-written {b} bytes v h =
    has_written-eq (length bytes)
      (record {
        ordered = v.ordered;
        inside = omega (arith, length-write_at b.buffer b.writer_index bytes);
        roomy = omega (arith, length-write_at b.buffer b.writer_index bytes);
        small = omega (arith, length-write_at b.buffer b.writer_index bytes);
      })
      (omega (arith, length-write_at b.buffer b.writer_index bytes))

-- For a valid buffer whose vector can grow as far, `append` succeeds, and leaves a valid buffer with
-- the new bytes behind the old contents, in a vector longer by at most their number.
pub append_lem :
    {b : Buffer} (bytes : List ℕ)
    → IsValid b
    → b.writer_index + length bytes ≤ max_size
    → (b' : Buffer) × (append b bytes ≡ ok b') × Appended b bytes b'
unfolding append
append_lem {b} bytes v small =
    let (r, e, room) = ensure_writable_bytes_lem (length bytes) v small in
    (
      written r bytes,
      rw e (has_written-written bytes room.valid room.room),
      record {
        valid = written-IsValid bytes room.valid room.room;
        joined = contents-written bytes room.valid room.room ∙ ap (λ c. c ++ bytes) room.same;
        bounded = omega (arith, length-write_at r.buffer r.writer_index bytes, room.bounded);
      },
    )

-- Where the bytes fit, the vector stays as long as it is.
pub append_fits :
    {b : Buffer} (bytes : List ℕ)
    → IsValid b
    → length bytes ≤ length b.buffer - b.writer_index
    → append b bytes ≡ ok (written b bytes)
unfolding append ensure_writable_bytes
append_fits {b} bytes v h = ground (arith, writable_bytes-eq v, has_written-written bytes v h)

abbrev prepended : Buffer → List ℕ → Buffer
prepended b bytes = record b {
  buffer = write_at b.buffer (b.reader_index - length bytes) bytes;
  reader_index = b.reader_index - length bytes;
}

contents-prepended :
    {b : Buffer} (bytes : List ℕ)
    → IsValid b
    → length bytes ≤ b.reader_index
    → contents (prepended b bytes) ≡ bytes ++ contents b
contents-prepended {b} bytes v fits =
    ap (slice (prepended b bytes).buffer (b.reader_index - length bytes)) (omega arith)
    ∙ slice-write_at_front b.buffer bytes (b.reader_index - length bytes)
        (b.writer_index - b.reader_index) (omega arith)
    ∙ ap (λ i. bytes ++ slice b.buffer i (b.writer_index - b.reader_index)) (omega arith)

-- `prepend` of no more bytes than stand free before the contents succeeds, and leaves a valid buffer
-- with the new bytes before the old contents, in the same vector.
pub prepend_lem :
    {b : Buffer} (bytes : List ℕ)
    → IsValid b
    → length bytes ≤ b.reader_index
    → (b' : Buffer) × (prepend b bytes ≡ ok b')
      × IsValid b'
      × (contents b' ≡ bytes ++ contents b)
      × (b'.reader_index + length bytes ≡ b.reader_index)
unfolding prepend
prepend_lem {b} bytes v fits = (
  prepended b bytes,
  ground arith,
  omega (arith, length-write_at b.buffer (b.reader_index - length bytes) bytes),
  contents-prepended bytes v fits,
  omega arith,
)

-- A prefix that is longer than the free bytes fails the assertion.
prepend_beyond :
    (b : Buffer) (bytes : List ℕ)
    → b.reader_index < length bytes
    → prepend b bytes ≡ err assertion_failed
unfolding prepend
prepend_beyond b bytes h = ground arith
