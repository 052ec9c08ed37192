-- ===== src/Buffer/Moves.antt =====
-- Buffer.h: `makeSpace` and `ensureWritableBytes` find room without touching the contents.
use native.Mathlib.Decide.{dec_lt}
use event_loop.Prelude.{
  ℕ, zero, ◌+◌, ◌-◌, ◌≤◌, ◌<◌, ◌≡◌, refl, ap, ◌∙◌, List, ◌++◌, ok, arith, length, slice, replicate,
  write_at, take_all, slice-append, slice-write_at_self, length-write_at, length-append,
  length-replicate, le→ltb_false,
}
use event_loop.Buffer.{
  Buffer, cheap_prepend, max_size, contents, resize, make_space, ensure_writable_bytes,
}
use event_loop.Buffer.Bounds.{IsValid, writable_bytes-eq, length-contents}

-- A buffer after room is made: valid, with the contents that it had, and `len` writable bytes.
pub record HasRoom (b : Buffer) (len : ℕ) (b' : Buffer) : Type 0 where
  pub valid : IsValid b'
  pub same : contents b' ≡ contents b
  pub room : len ≤ length b'.buffer - b'.writer_index
  pub bounded : length b'.buffer ≤ length b.buffer + len

-- The vector after `resize` to a larger size.
abbrev grown : Buffer → ℕ → Buffer
grown b len = record b { buffer = b.buffer ++ replicate (b.writer_index + len - length b.buffer) 0 }

-- The vector after the readable bytes are moved to the front.
abbrev moved : Buffer → Buffer
moved b = record {
  buffer = write_at b.buffer cheap_prepend (contents b);
  reader_index = cheap_prepend;
  writer_index = cheap_prepend + (b.writer_index - b.reader_index);
}

resize-eq :
    (bs : List ℕ) (n : ℕ)
    → length bs ≤ n
    → n ≤ max_size
    → resize bs n ≡ ok (bs ++ replicate (n - length bs) 0)
unfolding resize
resize-eq bs n h k = rw (le→ltb_false max_size n k, take_all n bs h)

-- There is no place for `len` bytes and the prepended ones: the vector grows.
make_space_grows :
    {b : Buffer} (len : ℕ)
    → IsValid b
    → b.writer_index + len ≤ max_size
    → length b.buffer < b.writer_index + len
    → length b.buffer - b.writer_index + b.reader_index < len + cheap_prepend
    → make_space b len ≡ ok (grown b len)
unfolding make_space
make_space_grows {b} len v small short tight =
    ground (arith, resize-eq b.buffer (b.writer_index + len) (omega arith) small)

-- There is: the readable bytes move to the front, and the assertion on the read index holds.
make_space_moves :
    {b : Buffer} (len : ℕ)
    → IsValid b
    → b.writer_index + len ≤ max_size
    → length b.buffer < b.writer_index + len
    → len + cheap_prepend ≤ length b.buffer - b.writer_index + b.reader_index
    → make_space b len ≡ ok (moved b)
unfolding make_space
make_space_moves {b} len v small short fits = ground arith

grown-HasRoom :
    {b : Buffer} (len : ℕ)
    → IsValid b
    → b.writer_index + len ≤ max_size
    → length b.buffer < b.writer_index + len
    → HasRoom b len (grown b len)
grown-HasRoom {b} len v small short = record {
  valid = omega (arith, longer);
  same = slice-append b.buffer _ b.reader_index (b.writer_index - b.reader_index) (omega arith);
  room = omega (arith, longer);
  bounded = omega (arith, longer);
}
  where
    longer : length (grown b len).buffer ≡ b.writer_index + len
    longer = omega (
      arith,
      length-append b.buffer (replicate (b.writer_index + len - length b.buffer) zero),
      length-replicate {A = ℕ} (b.writer_index + len - length b.buffer) 0,
    )

moved-HasRoom :
    {b : Buffer} (len : ℕ)
    → IsValid b
    → len + cheap_prepend ≤ length b.buffer - b.writer_index + b.reader_index
    → HasRoom b len (moved b)
moved-HasRoom {b} len v fits = record {
  valid = omega (arith, length-write_at b.buffer cheap_prepend (contents b));
  same =
      ap (slice (moved b).buffer cheap_prepend) (omega (arith, length-contents v))
      ∙ slice-write_at_self b.buffer (contents b) cheap_prepend (omega (arith, length-contents v));
  room = omega (arith, length-write_at b.buffer cheap_prepend (contents b));
  bounded = omega (arith, length-write_at b.buffer cheap_prepend (contents b));
}

-- For a valid buffer whose vector can grow as far, `makeSpace` called for more than the writable
-- bytes fails no assertion; it leaves the contents as they were, and room for what is asked.
pub make_space_lem :
    {b : Buffer} (len : ℕ)
    → IsValid b
    → b.writer_index + len ≤ max_size
    → length b.buffer < b.writer_index + len
    → (b' : Buffer) × (make_space b len ≡ ok b') × HasRoom b len b'
make_space_lem {b} len v small short =
    elim (dec_lt (length b.buffer - b.writer_index + b.reader_index) (len + cheap_prepend)) [
      | yes tight ↦
          (grown b len, make_space_grows len v small short tight, grown-HasRoom len v small short)
      | no fits ↦ (
        moved b,
        make_space_moves len v small short (omega arith),
        moved-HasRoom len v (omega arith),
      )
    ]

-- Under the same conditions, but for any number of bytes, so does `ensureWritableBytes`.
pub ensure_writable_bytes_lem :
    {b : Buffer} (len : ℕ)
    → IsValid b
    → b.writer_index + len ≤ max_size
    → (b' : Buffer) × (ensure_writable_bytes b len ≡ ok b') × HasRoom b len b'
unfolding ensure_writable_bytes
ensure_writable_bytes_lem {b} len v small = elim (dec_lt (length b.buffer - b.writer_index) len) [
  | yes short ↦
      let (b', e, room) = make_space_lem len v small (omega arith) in
      (b', ground (arith, writable_bytes-eq v, writable_bytes-eq room.valid), room)
  | no enough ↦ (
    b,
    ground (arith, writable_bytes-eq v),
    record { valid = v; same = refl; room = omega arith; bounded = omega arith },
  )
]
