-- ===== src/Buffer/Words/RoundTrip.antt =====
-- Buffer.h: a word is written highest byte first and read back as it was.
use event_loop.Prelude.{
  ℕ, ◌+◌, ◌-◌, ◌≤◌, ◌<◌, ◌^◌, ◌≡◌, sym, ap, subst, leb, true, ◌∙◌, List, ◌++◌, reverse, ok, arith,
  length, take, drop, slice, le→leb, take-take, take-append_self, drop-append_self, length-append,
}
use event_loop.Endian.{
  to_bytes, of_bytes, swap_bytes, host_to_network32, network_to_host64, network_to_host32,
  network_to_host16,
}
use event_loop.Endian.RoundTrip.{
  to_bytes-swap_bytes, swap_bytes-of_bytes, length-to_bytes, length-reverse,
}
use event_loop.Buffer.{Buffer, max_size, readable_bytes, contents, retrieve}
use event_loop.Buffer.Words.{
  append_int32, prepend_int32, peek_int64, peek_int32, peek_int16, read_int32, read_int16,
}
use event_loop.Buffer.Bounds.{IsValid, readable_bytes-eq, length-contents}
use event_loop.Buffer.Consume.{retrieve_lem, Holds-cases}
use event_loop.Buffer.Append.{Appended, append_lem, prepend_lem}

-- The bytes of a word on the wire, highest first.
abbrev pub wire : ℕ → ℕ → List ℕ
wire k x = reverse (to_bytes k x)

length-wire : (k x : ℕ) → length (wire k x) ≡ k
length-wire k x = length-reverse (to_bytes k x) ∙ length-to_bytes k x

module _ (k x : ℕ) {b : Buffer} (rest : List ℕ) (v : IsValid b)
    (starts : contents b ≡ wire k x ++ rest) where
  enough : k ≤ b.writer_index - b.reader_index
  enough =
      omega
        (arith, ap length starts, length-contents v, length-append (wire k x) rest, length-wire k x)

  -- The first k bytes of the contents are the word's.
  first_bytes : slice b.buffer b.reader_index k ≡ wire k x
  first_bytes =
      sym (take-take k (b.writer_index - b.reader_index) (drop b.reader_index b.buffer) enough)
      ∙ ap (take k) starts
      ∙ ap (λ n. take n (wire k x ++ rest)) (sym (length-wire k x))
      ∙ take-append_self (wire k x) rest

  word_lem : x < 256 ^ k → swap_bytes k (of_bytes (slice b.buffer b.reader_index k)) ≡ x
  word_lem h = ap (λ bs. swap_bytes k (of_bytes bs)) first_bytes ∙ swap_bytes-of_bytes k x h

  after_lem : drop k (contents b) ≡ rest
  after_lem =
      ap (drop k) starts
      ∙ ap (λ n. drop n (wire k x ++ rest)) (sym (length-wire k x))
      ∙ drop-append_self (wire k x) rest

  retrieve_word : (b' : Buffer) × (retrieve b k ≡ ok b') × IsValid b' × (contents b' ≡ rest)
  retrieve_word =
      let (b', e, v', c) =
        Holds-cases (retrieve b k) (retrieve_lem k v (omega (arith, enough, length-contents v))) in
      (b', e, v', c ∙ after_lem)

  readable-le : leb k (readable_bytes b) ≡ true
  readable-le = le→leb k (readable_bytes b) (omega (arith, readable_bytes-eq v, enough))

-- Where the contents begin with the four bytes of a word, highest first, `readInt32` returns the word
-- and leaves a valid buffer with the bytes behind it.
pub read_int32_lem :
    (x : ℕ) {b : Buffer} (rest : List ℕ)
    → IsValid b
    → contents b ≡ wire 4 x ++ rest
    → x < 2 ^ 32
    → (b' : Buffer) × (read_int32 b ≡ ok (x, b')) × IsValid b' × (contents b' ≡ rest)
unfolding read_int32 peek_int32 network_to_host32
read_int32_lem x {b} rest v starts h =
    let (b', e, v', c) = retrieve_word 4 x rest v starts in
    (b', rw (readable-le 4 x rest v starts, word_lem 4 x rest v starts h, e), v', c)

-- So do the sixteen-bit operations with two bytes.
pub read_int16_lem :
    (x : ℕ) {b : Buffer} (rest : List ℕ)
    → IsValid b
    → contents b ≡ wire 2 x ++ rest
    → x < 2 ^ 16
    → (b' : Buffer) × (read_int16 b ≡ ok (x, b')) × IsValid b' × (contents b' ≡ rest)
unfolding read_int16 peek_int16 network_to_host16
read_int16_lem x {b} rest v starts h =
    let (b', e, v', c) = retrieve_word 2 x rest v starts in
    (b', rw (readable-le 2 x rest v starts, word_lem 2 x rest v starts h, e), v', c)

-- And `peekInt64` returns the word of the first eight bytes.
pub peek_int64_lem :
    (x : ℕ) {b : Buffer} (rest : List ℕ)
    → IsValid b
    → contents b ≡ wire 8 x ++ rest
    → x < 2 ^ 64
    → peek_int64 b ≡ ok x
unfolding peek_int64 network_to_host64
peek_int64_lem x {b} rest v starts h =
    rw (readable-le 8 x rest v starts, word_lem 8 x rest v starts h)

-- A 32-bit word that is written before the contents of a valid buffer with four free bytes there, as
-- the length of a message is, is read back by `readInt32`, which leaves the contents as they were.
pub read_int32-prepend_int32 :
    (x : ℕ) {b : Buffer}
    → IsValid b
    → 4 ≤ b.reader_index
    → x < 2 ^ 32
    → (b' b'' : Buffer) × (prepend_int32 b x ≡ ok b')
      × (read_int32 b' ≡ ok (x, b''))
      × IsValid b''
      × (contents b'' ≡ contents b)
unfolding prepend_int32 host_to_network32
read_int32-prepend_int32 x {b} v free h =
    let bytes = to_bytes 4 (swap_bytes 4 x) in
    let (b', e, v', c, _) =
      prepend_lem bytes v (omega (arith, length-to_bytes 4 (swap_bytes 4 x))) in
    let (b'', e', v'', c') =
      read_int32_lem x (contents b) v' (c ∙ ap (λ w. w ++ contents b) (to_bytes-swap_bytes 4 x))
        h in
    (b', b'', e, e', v'', c')

-- A 32-bit word appended to a valid buffer stands behind the contents, highest byte first.
pub append_int32_lem :
    (x : ℕ) {b : Buffer}
    → IsValid b
    → b.writer_index + 4 ≤ max_size
    → (b' : Buffer) × (append_int32 b x ≡ ok b') × Appended b (wire 4 x) b'
unfolding append_int32 host_to_network32
append_int32_lem x {b} v room =
    let (b', e, a) =
      append_lem (to_bytes 4 (swap_bytes 4 x)) v
        (omega (arith, length-to_bytes 4 (swap_bytes 4 x))) in
    (b', e, subst (λ bytes. Appended b bytes b') (to_bytes-swap_bytes 4 x) a)
