-- ===== src/Buffer/Shrink.antt =====
-- Buffer.h: the constructor and `shrink`.
use event_loop.Prelude.{
  ℕ, ◌+◌, ◌-◌, ◌%◌, ◌^◌, ◌≤◌, ◌<◌, ◌≡◌, ◌≢◌, refl, ap, ◌∙◌, [], ◌++◌, ok, err, assertion_failed,
  arith, length, replicate, add_size, length-replicate, length-write_at, lt→ltb,
}
use event_loop.Buffer.{
  Buffer, cheap_prepend, initial_size, max_size, readable_bytes, contents, new_buffer,
  to_string_piece, shrink,
}
use event_loop.Buffer.Bounds.{IsValid, readable_bytes-eq, length-contents}
use event_loop.Buffer.Moves.{ensure_writable_bytes_lem}
use event_loop.Buffer.Append.{written, append_fits, contents-written, written-IsValid}

abbrev pub fresh : Buffer
fresh = record {
  buffer = replicate (cheap_prepend + initial_size) 0;
  reader_index = cheap_prepend;
  writer_index = cheap_prepend;
}

pub length-fresh : length fresh.buffer ≡ 1032
length-fresh = length-replicate {A = ℕ} 1032 0

pub fresh-IsValid : IsValid fresh
fresh-IsValid = omega (arith, length-fresh)

pub new_buffer-eq : new_buffer initial_size ≡ ok fresh
unfolding new_buffer
new_buffer-eq = refl

-- The constructor gives a valid empty buffer for the one size that it allots; its assertion fails
-- for any other size that a `size_t` holds.
pub new_buffer_lem :
    (wanted : ℕ)
    → (wanted ≡ initial_size
        → (b : Buffer) × (new_buffer wanted ≡ ok b) × IsValid b × (contents b ≡ []))
      × (wanted ≢ initial_size → new_buffer wanted ≡ err assertion_failed)
unfolding new_buffer
new_buffer_lem wanted =
    (λ e. (fresh, ap new_buffer e ∙ new_buffer-eq, fresh-IsValid, refl), λ ne. ground arith)

to_string_piece-eq :
    {b : Buffer} → IsValid b → length (contents b) < 2 ^ 31 → to_string_piece b ≡ ok (contents b)
unfolding to_string_piece
to_string_piece-eq {b} v h =
    rw (size, lt→ltb (b.writer_index - b.reader_index) (2 ^ 31) (omega (arith, length-contents v)))
  where
    size : readable_bytes b % 2 ^ 32 ≡ b.writer_index - b.reader_index
    size = omega (arith, readable_bytes-eq v, length-contents v)

-- For a valid buffer of less than 2^31 bytes, `shrink` fails no assertion; it leaves a valid buffer
-- with the same contents, and room to write the reserve.
pub shrink_lem :
    {b : Buffer} (reserve : ℕ)
    → IsValid b
    → length (contents b) < 2 ^ 31
    → cheap_prepend + length (contents b) + reserve ≤ max_size
    → (b' : Buffer) × (shrink b reserve ≡ ok b')
      × IsValid b'
      × (contents b' ≡ contents b)
      × (reserve ≤ length b'.buffer - b'.writer_index)
unfolding shrink
shrink_lem {b} reserve v small large =
    let wanted = length (contents b) + reserve in
    let (r, e, room) = ensure_writable_bytes_lem wanted fresh-IsValid (omega arith) in
    (
      written r (contents b),
      rw (
        new_buffer-eq,
        sum,
        e,
        to_string_piece-eq v small,
        append_fits (contents b) room.valid (omega (arith, room.room)),
      ),
      written-IsValid (contents b) room.valid (omega (arith, room.room)),
      contents-written (contents b) room.valid (omega (arith, room.room))
          ∙ ap (λ c. c ++ contents b) room.same,
      omega (arith, room.room, length-write_at r.buffer r.writer_index (contents b)),
    )
  where
    sum : add_size (readable_bytes b) reserve ≡ length (contents b) + reserve
    sum = omega (arith, readable_bytes-eq v, length-contents v)
