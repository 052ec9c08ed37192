-- ===== src/Buffer/Words.antt =====
-- Buffer.h: integers in the buffer, in network byte order. An intN_t is its bit pattern, a number below
-- 2^N; `memcpy` takes the bytes that it has in memory.
pub mod RoundTrip
use event_loop.Prelude.{
  ℕ, ◌+◌, ◌-◌, ◌≤◌, ◌<◌, ◌^◌, ◌≡◌, refl, sym, ap, ◌∙◌, subst, List, [], ◌++◌, reverse, Result, ok,
  err, ◌>>=◌, ◌>>◌, check, arith, length, take, drop, slice, leb, le→leb, take-take,
  take-append_self, drop-append_self, length-append,
}
use event_loop.Endian.{
  to_bytes, of_bytes, swap_bytes, host_to_network64, host_to_network32, host_to_network16,
  network_to_host64, network_to_host32, network_to_host16,
}
use event_loop.Endian.RoundTrip.{
  to_bytes-swap_bytes, swap_bytes-swap_bytes, length-to_bytes, length-reverse,
}
use event_loop.Buffer.{Buffer, max_size, readable_bytes, contents, peek, retrieve, append, prepend}
use event_loop.Buffer.Bounds.{IsValid, readable_bytes-eq, length-contents}
use event_loop.Buffer.Consume.{retrieve_lem, Holds-cases}
use event_loop.Buffer.Append.{Appended, append_lem, prepend_lem}

pub append_int64 : Buffer → ℕ → Result Buffer
append_int64 b x = append b (to_bytes 8 (host_to_network64 x))

pub prepend_int64 : Buffer → ℕ → Result Buffer
prepend_int64 b x = prepend b (to_bytes 8 (host_to_network64 x))

pub peek_int64 : Buffer → Result ℕ
unfolding peek
peek_int64 b =
    check (leb 8 (readable_bytes b))
    >> (let be64 = of_bytes (slice b.buffer (peek b) 8) in ok (network_to_host64 be64))

pub retrieve_int64 : Buffer → Result Buffer
retrieve_int64 b = retrieve b 8

pub append_int32 : Buffer → ℕ → Result Buffer
append_int32 b x = append b (to_bytes 4 (host_to_network32 x))

pub prepend_int32 : Buffer → ℕ → Result Buffer
prepend_int32 b x = prepend b (to_bytes 4 (host_to_network32 x))

pub peek_int32 : Buffer → Result ℕ
unfolding peek
peek_int32 b =
    check (leb 4 (readable_bytes b))
    >> (let be32 = of_bytes (slice b.buffer (peek b) 4) in ok (network_to_host32 be32))

pub retrieve_int32 : Buffer → Result Buffer
retrieve_int32 b = retrieve b 4

pub read_int32 : Buffer → Result (ℕ × Buffer)
unfolding retrieve_int32
read_int32 b = do result ← peek_int32 b; b' ← retrieve_int32 b; ok (result, b')

pub append_int16 : Buffer → ℕ → Result Buffer
append_int16 b x = append b (to_bytes 2 (host_to_network16 x))

pub prepend_int16 : Buffer → ℕ → Result Buffer
prepend_int16 b x = prepend b (to_bytes 2 (host_to_network16 x))

pub peek_int16 : Buffer → Result ℕ
unfolding peek
peek_int16 b =
    check (leb 2 (readable_bytes b))
    >> (let be16 = of_bytes (slice b.buffer (peek b) 2) in ok (network_to_host16 be16))

pub retrieve_int16 : Buffer → Result Buffer
retrieve_int16 b = retrieve b 2

pub read_int16 : Buffer → Result (ℕ × Buffer)
unfolding retrieve_int16
read_int16 b = do result ← peek_int16 b; b' ← retrieve_int16 b; ok (result, b')

pub append_int8 : Buffer → ℕ → Result Buffer
append_int8 b x = append b (to_bytes 1 x)

pub prepend_int8 : Buffer → ℕ → Result Buffer
prepend_int8 b x = prepend b (to_bytes 1 x)

pub peek_int8 : Buffer → Result ℕ
unfolding peek
peek_int8 b = check (leb 1 (readable_bytes b)) >> ok (of_bytes (slice b.buffer (peek b) 1))

pub retrieve_int8 : Buffer → Result Buffer
retrieve_int8 b = retrieve b 1

pub read_int8 : Buffer → Result (ℕ × Buffer)
unfolding retrieve_int8
read_int8 b = do result ← peek_int8 b; b' ← retrieve_int8 b; ok (result, b')
