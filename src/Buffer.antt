-- ===== src/Buffer.antt =====
-- src/Buffer.h and src/Buffer.cpp: the byte buffer with a read index and a write index. `buffer_`
-- is a list of bytes; a pointer into it is the index that it points to, NULL is `none`; each
-- `assert` is a `check`; index arithmetic is that of `size_t`. `std::vector::resize` throws
-- `length_error` above `max_size`.
pub mod Bounds
pub mod Moves
pub mod Append
pub mod Consume
pub mod ReadFd
pub mod Words
pub mod Shrink
pub mod Refine
pub mod Search
mod Tests
use event_loop.Prelude.{
  ℕ, zero, suc, ◌+◌, ◌-◌, ◌%◌, ◌^◌, Bool, ◌&&◌, Option, none, some, List, [], ◌∷◌, ◌++◌, length,
  take, drop, slice, replicate, write_at, ltb, leb, ◌==◌, if◌then◌else◌, add_size, sub_size, Result,
  ok, err, length_error, undefined_access, check, ◌>>=◌, ◌>>◌,
}
use event_loop.Endian.{
  to_bytes, of_bytes, host_to_network64, host_to_network32, host_to_network16, network_to_host64,
  network_to_host32, network_to_host16,
}

pub record Buffer : Type 0 where
  pub buffer : List ℕ
  pub reader_index : ℕ
  pub writer_index : ℕ

abbrev pub cheap_prepend : ℕ
cheap_prepend = 8

abbrev pub initial_size : ℕ
initial_size = 1024

-- The largest size of a `std::vector<char>`.
abbrev pub max_size : ℕ
max_size = 2 ^ 63 - 1

pub readable_bytes : Buffer → ℕ
readable_bytes b = sub_size b.writer_index b.reader_index

pub writable_bytes : Buffer → ℕ
writable_bytes b = sub_size (length b.buffer) b.writer_index

pub prependable_bytes : Buffer → ℕ
prependable_bytes b = b.reader_index

-- The constructor, which checks its argument against the fixed initial size.
pub new_buffer : ℕ → Result Buffer
unfolding readable_bytes writable_bytes prependable_bytes
new_buffer wanted =
    let b : Buffer = record {
      buffer = replicate (cheap_prepend + initial_size) 0;
      reader_index = cheap_prepend;
      writer_index = cheap_prepend;
    } in
    check (readable_bytes b == 0)
    >> check (writable_bytes b == wanted)
    >> check (prependable_bytes b == cheap_prepend)
    >> ok b

pub swap : Buffer → Buffer → Buffer × Buffer
swap this rhs = (rhs, this)

unfoldable pub peek : Buffer → ℕ
peek b = b.reader_index

unfoldable pub begin_write : Buffer → ℕ
begin_write b = b.writer_index

-- The bytes that are to be read.
abbrev pub contents : Buffer → List ℕ
contents b = slice b.buffer b.reader_index (b.writer_index - b.reader_index)

-- `std::search` for a pair of bytes: how far in it begins, or the length.
unfoldable pub search_pair : ℕ → ℕ → List ℕ → ℕ
search_pair x y [] = 0
search_pair x y (a ∷ []) = 1
search_pair x y (a ∷ c ∷ r) =
    let rest = search_pair x y (c ∷ r) in if a == x && c == y then 0 else suc rest

-- `memchr`: how far in the byte stands.
unfoldable pub find_byte : ℕ → List ℕ → Option ℕ
find_byte x [] = none
find_byte x (a ∷ r) =
    let rest = find_byte x r in
    if a == x then some 0 else elim rest [ none ↦ none | some n ↦ some (suc n) ]

abbrev pub cr : ℕ
cr = 13

abbrev pub lf : ℕ
lf = 10

pub find_crlf_from : Buffer → ℕ → Result (Option ℕ)
unfolding peek begin_write
find_crlf_from b start =
    check (leb (peek b) start)
    >> check (leb start (begin_write b))
    >> (let crlf = start + search_pair cr lf (slice b.buffer start (begin_write b - start)) in
        if crlf == begin_write b then ok none else ok (some crlf))

unfoldable pub find_crlf : Buffer → Option ℕ
unfolding peek begin_write
find_crlf b =
    let crlf = peek b + search_pair cr lf (slice b.buffer (peek b) (begin_write b - peek b)) in
    if crlf == begin_write b then none else some crlf

pub find_eol : Buffer → Option ℕ
unfolding peek
find_eol b = elim (find_byte lf (slice b.buffer (peek b) (readable_bytes b))) [
  | none ↦ none
  | some n ↦ some (peek b + n)
]

pub find_eol_from : Buffer → ℕ → Result (Option ℕ)
unfolding peek begin_write
find_eol_from b start =
    check (leb (peek b) start)
    >> check (leb start (begin_write b))
    >> (elim (find_byte lf (slice b.buffer start (begin_write b - start))) [
      | none ↦ ok none
      | some n ↦ ok (some (start + n))
    ])

unfoldable pub retrieve_all : Buffer → Buffer
retrieve_all b = record b { reader_index = cheap_prepend; writer_index = cheap_prepend }

unfoldable pub retrieve : Buffer → ℕ → Result Buffer
unfolding readable_bytes retrieve_all
retrieve b len =
    check (leb len (readable_bytes b))
    >> (if ltb len (readable_bytes b)
        then ok (record b { reader_index = add_size b.reader_index len })
        else ok (retrieve_all b))

unfoldable pub retrieve_until : Buffer → ℕ → Result Buffer
unfolding peek begin_write
retrieve_until b end =
    check (leb (peek b) end) >> check (leb end (begin_write b)) >> retrieve b (end - peek b)

pub retrieve_as_string : Buffer → ℕ → Result (List ℕ × Buffer)
unfolding peek
retrieve_as_string b len = do
  check (leb len (readable_bytes b))
  let result = slice b.buffer (peek b) len
  b' ← retrieve b len
  ok (result, b')

pub retrieve_all_as_string : Buffer → Result (List ℕ × Buffer)
retrieve_all_as_string b = retrieve_as_string b (readable_bytes b)

-- The bytes that a StringPiece shows. Its length is an `int`: a count that turns negative in the cast
-- is no length.
pub to_string_piece : Buffer → Result (List ℕ)
unfolding peek
to_string_piece b =
    let size = readable_bytes b % 2 ^ 32 in
    if ltb size (2 ^ 31) then ok (slice b.buffer (peek b) size) else err undefined_access

-- `buffer_.resize(n)`.
pub resize : List ℕ → ℕ → Result (List ℕ)
resize bs n =
    if ltb max_size n then err length_error else ok (take n bs ++ replicate (n - length bs) 0)

pub make_space : Buffer → ℕ → Result Buffer
unfolding readable_bytes writable_bytes prependable_bytes
make_space b len =
    if ltb (add_size (writable_bytes b) (prependable_bytes b)) (add_size len cheap_prepend)
    then resize b.buffer (add_size b.writer_index len)
      >>= (λ grown. ok (record b { buffer = grown }))
    else check (ltb cheap_prepend b.reader_index)
      >> (let readable = readable_bytes b in
          let moved : Buffer = record {
            buffer = write_at b.buffer cheap_prepend (contents b);
            reader_index = cheap_prepend;
            writer_index = add_size cheap_prepend readable;
          } in
          check (readable == readable_bytes moved) >> ok moved)

unfoldable pub ensure_writable_bytes : Buffer → ℕ → Result Buffer
ensure_writable_bytes b len = do
  b' ← (if ltb (writable_bytes b) len then make_space b len else ok b)
  check (leb len (writable_bytes b'))
  ok b'

unfoldable pub has_written : Buffer → ℕ → Result Buffer
unfolding writable_bytes
has_written b len =
    check (leb len (writable_bytes b))
    >> ok (record b { writer_index = add_size b.writer_index len })

pub unwrite : Buffer → ℕ → Result Buffer
unfolding readable_bytes
unwrite b len =
    check (leb len (readable_bytes b))
    >> ok (record b { writer_index = sub_size b.writer_index len })

-- `std::copy` to `beginWrite()`, then `hasWritten`.
unfoldable pub append : Buffer → List ℕ → Result Buffer
unfolding begin_write
append b bytes = do
  b' ← ensure_writable_bytes b (length bytes)
  has_written (record b' { buffer = write_at b'.buffer (begin_write b') bytes }) (length bytes)

pub prepend : Buffer → List ℕ → Result Buffer
unfolding prependable_bytes
prepend b bytes =
    check (leb (length bytes) (prependable_bytes b))
    >> (let start = sub_size b.reader_index (length bytes) in
        ok (record b { buffer = write_at b.buffer start bytes; reader_index = start }))

pub shrink : Buffer → ℕ → Result Buffer
unfolding swap
shrink b reserve = do
  other ← new_buffer initial_size
  roomy ← ensure_writable_bytes other (add_size (readable_bytes b) reserve)
  piece ← to_string_piece b
  filled ← append roomy piece
  ok (swap b filled).0
