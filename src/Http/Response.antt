-- ===== src/Http/Response.antt =====
-- src/HttpResponse.h and src/HttpResponse.cpp: a response and how it is printed. The map of headers is
-- the list of its pairs in the order of their keys, in which `std::map` is gone through.
pub mod Decimal
pub mod Printing
pub mod Headers
mod Tests
use event_loop.Prelude.{
  ℕ, zero, suc, ◌+◌, ◌/◌, ◌%◌, Bool, true, false, ◌&&◌, ◌||◌, List, [], ◌∷◌, ◌++◌, length, take,
  ltb, ◌==◌, if◌then◌else◌, Result, ok, ◌>>=◌,
}
use event_loop.Buffer.{Buffer, append}
use event_loop.StringPiece.{of_string, as_string}
use event_loop.Http.Request.{Bytes, bytes_eq}

pub data StatusCode : Type 0 where
  unknown ok200 moved_permanently301 bad_request400 not_found404 : StatusCode

-- The values of the enumerators, as the source gives them.
abbrev pub value : StatusCode → ℕ
value unknown = 0
value ok200 = 200
value moved_permanently301 = 301
value bad_request400 = 400
value not_found404 = 400

pub record HttpResponse : Type 0 where
  pub headers : List (Bytes × Bytes)
  pub status_code : StatusCode
  pub status_message : Bytes
  pub close_connection : Bool
  pub body : Bytes

unfoldable pub new_response : Bool → HttpResponse
new_response close = record {
  headers = [];
  status_code = unknown;
  status_message = [];
  close_connection = close;
  body = [];
}

-- The order of strings.
unfoldable pub less : Bytes → Bytes → Bool
less [] [] = false
less [] (y ∷ ys) = true
less (x ∷ xs) [] = false
less (x ∷ xs) (y ∷ ys) = ltb x y || (x == y && less xs ys)

-- `headers_[key] = value`.
unfoldable pub place : Bytes → Bytes → List (Bytes × Bytes) → List (Bytes × Bytes)
place key value [] = (key, value) ∷ []
place key value ((k, v) ∷ hs) =
    let rest = place key value hs in
    if less k key
    then (k, v) ∷ rest
    else (if bytes_eq k key then (key, value) ∷ hs else (key, value) ∷ (k, v) ∷ hs)

unfoldable pub add_header : HttpResponse → Bytes → Bytes → HttpResponse
add_header r key value = record r { headers = place key value r.headers }

-- The decimal digits of a number before `acc`, at most `fuel` of them.
unfoldable pub digits : ℕ → ℕ → Bytes → Bytes
digits zero n acc = acc
digits (suc fuel) n acc =
    let longer = digits fuel (n / 10) ((48 + n % 10) ∷ acc) in
    if n / 10 == 0 then (48 + n % 10) ∷ acc else longer

-- `%d` and `%zd`: a number below 2 ^ 64 has at most 20 digits.
unfoldable pub decimal : ℕ → Bytes
decimal n = digits 20 n []

-- `snprintf` into the 32 bytes of `buf`.
abbrev pub print_into : Bytes → Bytes
print_into text = take 31 text

abbrev pub http_version : Bytes
http_version = b'H' ∷ b'T' ∷ b'T' ∷ b'P' ∷ b'/' ∷ b'1' ∷ b'.' ∷ b'1' ∷ 32 ∷ []

abbrev pub crlf : Bytes
crlf = 13 ∷ 10 ∷ []

abbrev pub connection_close : Bytes
connection_close =
    b'C' ∷ b'o' ∷ b'n' ∷ b'n' ∷ b'e' ∷ b'c' ∷ b't' ∷ b'i' ∷ b'o' ∷ b'n' ∷ b':' ∷ 32 ∷ b'c' ∷ b'l'
    ∷ b'o' ∷ b's' ∷ b'e' ∷ []

abbrev pub content_length : Bytes
content_length =
    b'C' ∷ b'o' ∷ b'n' ∷ b't' ∷ b'e' ∷ b'n' ∷ b't' ∷ b'-' ∷ b'L' ∷ b'e' ∷ b'n' ∷ b'g' ∷ b't' ∷ b'h'
    ∷ b':' ∷ 32 ∷ []

abbrev pub keep_alive : Bytes
keep_alive =
    b'C' ∷ b'o' ∷ b'n' ∷ b'n' ∷ b'e' ∷ b'c' ∷ b't' ∷ b'i' ∷ b'o' ∷ b'n' ∷ b':' ∷ 32 ∷ b'K' ∷ b'e'
    ∷ b'e' ∷ b'p' ∷ b'-' ∷ b'A' ∷ b'l' ∷ b'i' ∷ b'v' ∷ b'e' ∷ []

abbrev pub colon : Bytes
colon = b':' ∷ 32 ∷ []

-- `append` of a string, which becomes a StringPiece: what is behind a zero byte is not appended.
unfoldable pub append_string : Buffer → Bytes → Result Buffer
append_string b text = of_string text >>= λ p. append b (as_string p)

-- The branch on the end of the connection.
unfoldable pub append_connection : HttpResponse → Buffer → Result Buffer
append_connection r b =
    if r.close_connection
    then append b (connection_close ++ crlf)
    else append b (print_into (content_length ++ decimal (length r.body) ++ crlf))
      >>= (λ b1. append b1 (keep_alive ++ crlf))

-- The loop over the headers.
unfoldable pub append_headers : List (Bytes × Bytes) → Buffer → Result Buffer
append_headers [] b = ok b
append_headers ((k, v) ∷ hs) b = append_string b k >>= (λ b1.
    append b1 colon
    >>= (λ b2. append_string b2 v >>= (λ b3. append b3 crlf >>= (λ b4. append_headers hs b4))))

unfoldable pub append_to_buffer : HttpResponse → Buffer → Result Buffer
append_to_buffer r b =
    append b (print_into (http_version ++ decimal (value r.status_code) ++ 32 ∷ [])) >>= (λ b1.
      append_string b1 r.status_message >>= (λ b2. append b2 crlf >>= (λ b3.
        append_connection r b3 >>= (λ b4.
          append_headers r.headers b4
          >>= (λ b5. append b5 crlf >>= (λ b6. append_string b6 r.body))))))
