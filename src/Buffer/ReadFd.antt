-- ===== src/Buffer/ReadFd.antt =====
-- src/Buffer.cpp: `readFd` reads from a socket into the writable bytes and an extra block, in one call
-- of `readv`. What the call returns is an argument: an error number, or the bytes read.
use native.Mathlib.Decide.{dec_lt}
use event_loop.Prelude.{
  ℕ, ◌+◌, ◌-◌, ◌≤◌, ◌<◌, ◌≡◌, refl, ap, ◌∙◌, List, ◌++◌, Result, ok, ◌>>=◌, arith, length, take,
  drop, write_at, add_size, append_assoc, take-append-drop, length-take, length-drop,
  length-write_at, ltb, leb, take_all, if◌then◌else◌,
}
use event_loop.Buffer.{Buffer, max_size, writable_bytes, contents, append}
use event_loop.Buffer.Bounds.{IsValid, writable_bytes-eq}
use event_loop.Buffer.Append.{Appended, append_lem, written, contents-written, written-IsValid}

pub data Readv : Type 0 where
  failed : ℕ → Readv
  got : List ℕ → Readv

abbrev pub extra_size : ℕ
extra_size = 65536

-- As many bytes as the blocks handed to `readv` have room for: the extra block is the second of two
-- only while the writable bytes are fewer.
unfoldable pub read_capacity : Buffer → ℕ
read_capacity b =
    let writable = writable_bytes b in
    if ltb writable extra_size then writable + extra_size else writable

-- The buffer after the call, and what the call gave: `n`, or -1 with the error number saved.
pub read_fd : Buffer → Readv → Result (Buffer × Readv)
read_fd b (failed errno) = ok (b, failed errno)
read_fd b (got bytes) =
    let writable = writable_bytes b in
    let filled : Buffer = record b {
      buffer = write_at b.buffer b.writer_index (take writable bytes);
    } in
    if leb (length bytes) writable
    then ok (record filled { writer_index = add_size b.writer_index (length bytes) }, got bytes)
    else append (record filled { writer_index = length b.buffer }) (drop writable bytes)
      >>= (λ b'. ok (b', got bytes))

-- A failed read leaves the buffer as it was and hands the error on.
read_fd_failed : (b : Buffer) (errno : ℕ) → read_fd b (failed errno) ≡ ok (b, failed errno)
unfolding read_fd
read_fd_failed b errno = refl

read_fits :
    {b : Buffer} (bytes : List ℕ)
    → IsValid b
    → length bytes ≤ length b.buffer - b.writer_index
    → read_fd b (got bytes) ≡ ok (written b bytes, got bytes)
unfolding read_fd
read_fits {b} bytes v h =
    ground (arith, writable_bytes-eq v, take_all (length b.buffer - b.writer_index) bytes h)

-- The vector filled to its end by the first part of what is read.
abbrev full : Buffer → List ℕ → Buffer
full b bytes = written b (take (length b.buffer - b.writer_index) bytes)

read_overflows :
    {b : Buffer} (bytes : List ℕ)
    → IsValid b
    → length b.buffer - b.writer_index < length bytes
    → read_fd b (got bytes) ≡ (
        append (full b bytes) (drop (length b.buffer - b.writer_index) bytes)
        >>= (λ b'. ok (b', got bytes)))
unfolding read_fd
read_overflows {b} bytes v h =
    ground (arith, writable_bytes-eq v, length-take (length b.buffer - b.writer_index) bytes)

capacity-le :
    {b : Buffer} → IsValid b → read_capacity b ≤ length b.buffer - b.writer_index + extra_size
unfolding read_capacity
capacity-le v = ground (arith, writable_bytes-eq v)

-- The overflow, with the free bytes at the end of the vector named.
read_overflows_lem :
    {b : Buffer} (room : ℕ) (bytes : List ℕ)
    → IsValid b
    → room ≡ length b.buffer - b.writer_index
    → room < length bytes
    → length b.buffer + (length bytes - room) ≤ max_size
    → (b' : Buffer) × (append (written b (take room bytes)) (drop room bytes) ≡ ok b')
      × Appended b bytes b'
read_overflows_lem {b} room bytes v e h small =
    let first = take room bytes in
    let rest = drop room bytes in
    let fits : length first ≤ length b.buffer - b.writer_index =
      omega (arith, length-take room bytes) in
    let (b', e', a) =
      append_lem rest (written-IsValid first v fits)
        (omega (arith, length-take room bytes, length-drop room bytes)) in
    (
      b',
      e',
      record {
        valid = a.valid;
        joined =
            a.joined
            ∙ ap (λ c. c ++ rest) (contents-written first v fits)
            ∙ append_assoc (contents b) first rest
            ∙ ap (λ c. contents b ++ c) (take-append-drop room bytes);
        bounded = omega (
          arith,
          a.bounded,
          length-write_at b.buffer b.writer_index first,
          length-drop room bytes,
        );
      },
    )

-- For a valid buffer, a read of no more bytes than the blocks have room for succeeds, if the vector
-- can grow by the extra block: it leaves a valid buffer with the bytes read behind the old contents.
pub read_fd_lem :
    {b : Buffer} (bytes : List ℕ)
    → IsValid b
    → length bytes ≤ read_capacity b
    → length b.buffer + extra_size ≤ max_size
    → (b' : Buffer) × (read_fd b (got bytes) ≡ ok (b', got bytes)) × Appended b bytes b'
read_fd_lem {b} bytes v fits small =
    elim (dec_lt (length b.buffer - b.writer_index) (length bytes)) [
      | no h ↦ (
        written b bytes,
        read_fits bytes v (omega arith),
        record {
          valid = written-IsValid bytes v (omega arith);
          joined = contents-written bytes v (omega arith);
          bounded = omega (arith, length-write_at b.buffer b.writer_index bytes);
        },
      )
      | yes h ↦
          let (b', e, a) =
            read_overflows_lem (length b.buffer - b.writer_index) bytes v refl h
              (omega (arith, capacity-le v)) in
          (b', rw (read_overflows bytes v h, e), a)
    ]
