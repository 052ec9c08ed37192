-- ===== src/Http/Response/Printing.antt =====
-- HttpResponse.cpp: what `appendToBuffer` appends.
use event_loop.Prelude.{
  ℕ, suc, ◌+◌, ◌≤◌, ◌<◌, ◌^◌, ◌≡◌, refl, sym, ap, ◌∙◌, List, [], ◌∷◌, ◌++◌, append_assoc,
  append-nil, length, length-append, take_all, Bool-cases, inl, inr, Result, ok, ◌>>=◌, arith,
  if◌then◌else◌,
}
use event_loop.Buffer.{Buffer, max_size, append, contents}
use event_loop.Buffer.Bounds.{IsValid}
use event_loop.Buffer.Append.{Appended, append_lem}
use event_loop.StringPiece.Order.{before_zero, of_string_lem}
use event_loop.Http.Request.{Bytes}
use event_loop.Http.Response.Decimal.{length-decimal, power_ten}
use event_loop.Http.Response.{
  StatusCode, unknown, ok200, moved_permanently301, bad_request400, not_found404, HttpResponse,
  value, decimal, print_into, http_version, crlf, connection_close, content_length, keep_alive,
  colon, append_connection, append_headers, append_to_buffer, append_string,
}

-- On a valid buffer whose vector can grow as far, the call appends the text.
abbrev pub Appends : (Buffer → Result Buffer) → Bytes → Type 0
Appends f text =
    (b : Buffer)
    → IsValid b
    → length b.buffer + length text ≤ max_size
    → (b' : Buffer) × (f b ≡ ok b') × Appended b text b'

append-Appends : (text : Bytes) → Appends (λ b. append b text) text
append-Appends text b v small = append_lem text v (omega (arith, v))

append_string-Appends :
    (text : Bytes) → length text < 2 ^ 31 → Appends (λ b. append_string b text) (before_zero text)
unfolding append_string
append_string-Appends text h b v small =
    let (p, e, same) = of_string_lem text h in
    rw (e, same) (append-Appends (before_zero text) b v small)

nothing-Appends : Appends ok []
nothing-Appends b v small =
    (b, refl, record { valid = v; joined = sym (append-nil (contents b)); bounded = omega arith })

chain-Appends :
    (f g : Buffer → Result Buffer) (s t : Bytes)
    → Appends f s
    → Appends g t
    → Appends (λ b. f b >>= g) (s ++ t)
chain-Appends f g s t p q b v small =
    let (b1, e1, a1) = p b v (omega (arith, length-append s t)) in
    let (b2, e2, a2) = q b1 a1.valid (omega (arith, length-append s t, a1.bounded)) in
    (
      b2,
      rw e1 e2,
      record {
        valid = a2.valid;
        joined = a2.joined ∙ ap (λ x. x ++ t) a1.joined ∙ append_assoc (contents b) s t;
        bounded = omega (arith, length-append s t, a1.bounded, a2.bounded);
      },
    )

-- The text of a response. Of each string, it has the bytes before the first zero byte.
unfoldable pub connection_text : HttpResponse → Bytes
connection_text r =
    if r.close_connection
    then connection_close ++ crlf
    else (content_length ++ decimal (length r.body) ++ crlf) ++ (keep_alive ++ crlf)

unfoldable pub headers_text : List (Bytes × Bytes) → Bytes
headers_text [] = []
headers_text ((k, v) ∷ hs) =
    before_zero k ++ (colon ++ (before_zero v ++ (crlf ++ headers_text hs)))

unfoldable pub response_text : HttpResponse → Bytes
response_text r =
    (http_version ++ decimal (value r.status_code) ++ 32 ∷ [])
    ++ (before_zero r.status_message
        ++ (crlf
            ++ (connection_text r ++ (headers_text r.headers ++ (crlf ++ before_zero r.body)))))

-- The strings of a response have lengths that are an `int`.
abbrev pub AreInts : List (Bytes × Bytes) → Type 0
AreInts [] = Unit {0}
AreInts ((k, v) ∷ hs) = (length k < 2 ^ 31) × (length v < 2 ^ 31) × AreInts hs

abbrev pub IsShort : HttpResponse → Type 0
IsShort r = (length r.status_message < 2 ^ 31) × (length r.body < 2 ^ 31) × AreInts r.headers

headers-Appends :
    (hs : List (Bytes × Bytes)) → AreInts hs → Appends (append_headers hs) (headers_text hs)
unfolding append_headers headers_text
headers-Appends [] s = nothing-Appends
headers-Appends ((k, v) ∷ hs) (short_k, short_v, s) =
    chain-Appends _ _ (before_zero k) _ (append_string-Appends k short_k) (
      chain-Appends _ _ colon _ (append-Appends colon) (
        chain-Appends _ _ (before_zero v) _ (append_string-Appends v short_v)
          (chain-Appends _ _ crlf _ (append-Appends crlf) (headers-Appends hs s))))

small_code : (code : StatusCode) → value code < power_ten 3
unfolding power_ten
small_code unknown = omega arith
small_code ok200 = omega arith
small_code moved_permanently301 = omega arith
small_code bad_request400 = omega arith
small_code not_found404 = omega arith

-- A number of few digits fits between the parts of a line of 31 bytes.
print_into-line :
    (before after : Bytes) (k n : ℕ)
    → n < power_ten (suc k)
    → length before + (suc k + length after) ≤ 31
    → print_into (before ++ decimal n ++ after) ≡ before ++ decimal n ++ after
print_into-line before after k n h fits = take_all 31 _ (
    omega (
      arith,
      length-append (before ++ decimal n) after,
      length-append before (decimal n),
      length-decimal k n h,
    ))

connection-Appends :
    (r : HttpResponse)
    → length r.body < power_ten 13
    → Appends (append_connection r) (connection_text r)
unfolding append_connection connection_text
connection-Appends r h = elim (Bool-cases r.close_connection) [
  | inl closes ↦ rw closes (append-Appends (connection_close ++ crlf))
  | inr stays ↦
      rw (stays, print_into-line content_length crlf 12 (length r.body) h (omega arith))
        (chain-Appends _ _ (content_length ++ decimal (length r.body) ++ crlf) _ (append-Appends _)
          (append-Appends (keep_alive ++ crlf)))
]

-- appendToBuffer of a response whose strings are shorter than 2 ^ 31 bytes, on a valid buffer whose vector can
-- grow by the text of the response, succeeds: it leaves a valid buffer with the text behind the old
-- contents. The text has each line that is printed in full, the length of the whole body, and of the message, the
-- headers and the body the bytes before the first zero byte.
pub append_to_buffer_lem :
    (r : HttpResponse) (b : Buffer)
    → IsShort r
    → IsValid b
    → length b.buffer + length (response_text r) ≤ max_size
    → (b' : Buffer) × (append_to_buffer r b ≡ ok b') × Appended b (response_text r) b'
unfolding append_to_buffer response_text power_ten
append_to_buffer_lem r b (message, h, headers) =
    rw
      (print_into-line http_version (32 ∷ []) 2 (value r.status_code) (small_code r.status_code)
        (omega arith))
      (chain-Appends _ _ (http_version ++ decimal (value r.status_code) ++ 32 ∷ []) _
        (append-Appends _)
        (chain-Appends _ _ (before_zero r.status_message) _
          (append_string-Appends r.status_message message)
          (chain-Appends _ _ crlf _ (append-Appends crlf) (
            chain-Appends _ _ (connection_text r) _ (connection-Appends r (omega (arith, h))) (
              chain-Appends _ _ (headers_text r.headers) _ (headers-Appends r.headers headers) (
                chain-Appends _ _ crlf (before_zero r.body) (append-Appends crlf)
                  (append_string-Appends r.body h))))))
        b)
