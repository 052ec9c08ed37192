-- ===== src/Http/Context.antt =====
-- src/HttpContext.h and src/HttpContext.cpp: the parser of requests, which takes whole lines off a
-- buffer. `ok` of the source's loop is the flag of `stops`, and true while the loop goes on.
pub mod Lines
pub mod Refine
pub mod Progress
pub mod Chunks
pub mod RequestLine
pub mod RoundTrip
mod Tests
use event_loop.Prelude.{
  ℕ, zero, suc, ◌+◌, ◌-◌, Bool, true, false, Option, none, some, List, [], ◌∷◌, length, take, drop,
  slice, ◌==◌, if◌then◌else◌, Result, ok, err, ◌>>=◌,
}
use event_loop.Buffer.{Buffer, find_byte, find_crlf, retrieve_until, peek}
use event_loop.Http.Request.{
  Bytes, HttpRequest, new_request, set_method, set_path, set_query, set_version, set_receive_time,
  add_header, bytes_eq, http10, http11,
}

pub data State : Type 0 where
  expect_request_line expect_headers expect_body got_all : State

pub record HttpContext : Type 0 where
  pub state : State
  pub request : HttpRequest

abbrev pub new_context : HttpContext
new_context = record { state = expect_request_line; request = new_request }

unfoldable pub reset : HttpContext → HttpContext
reset c = record { state = expect_request_line; request = new_request }

unfoldable pub is_got_all : HttpContext → Bool
is_got_all c = elim c.state [
  | expect_request_line ↦ false
  | expect_headers ↦ false
  | expect_body ↦ false
  | got_all ↦ true
]

abbrev pub protocol : Bytes
protocol = b'H' ∷ b'T' ∷ b'T' ∷ b'P' ∷ b'/' ∷ b'1' ∷ b'.' ∷ []

-- The end of the request line, from behind the second blank.
unfoldable pub process_version : HttpRequest → Bytes → Bool × HttpRequest
unfolding bytes_eq set_version
process_version r rest =
    if length rest == 8
    then (if bytes_eq (take 7 rest) protocol
        then (if bytes_eq (drop 7 rest) (b'1' ∷ [])
            then (true, set_version r http11)
            else (if bytes_eq (drop 7 rest) (b'0' ∷ [])
                then (true, set_version r http10)
                else (false, r)))
        else (false, r))
    else (false, r)

-- The path and the query; the query begins with its question mark.
unfoldable pub process_target : HttpRequest → Bytes → HttpRequest
unfolding set_path set_query find_byte
process_target r target = elim (find_byte b'?' target) [
  | none ↦ set_path r target
  | some question ↦ set_query (set_path r (take question target)) (drop question target)
]

-- The request line from behind the first blank.
unfoldable pub process_rest : HttpRequest → Bytes → Bool × HttpRequest
unfolding process_target process_version
process_rest r rest = elim (find_byte b' ' rest) [
  | none ↦ (false, r)
  | some space ↦ process_version (process_target r (take space rest)) (drop (suc space) rest)
]

unfoldable pub process_request_line : HttpRequest → Bytes → Result (Bool × HttpRequest)
unfolding set_method process_rest
process_request_line r line = elim (find_byte b' ' line) [
  | none ↦ ok (false, r)
  | some space ↦ do
    m ← set_method r (take space line)
    if m.0 then ok (process_rest m.1 (drop (suc space) line)) else ok m
]

-- How one round of the loop of `parseRequest` ends: `hasMore` false or true.
pub data Turn (B : Type 0) : Type 0 where
  stops : Bool → HttpContext → B → Turn B
  goes_on : HttpContext → B → Turn B

unfoldable pub request_line_turn : HttpContext → Buffer → ℕ → Result (Turn Buffer)
request_line_turn c b t = elim (find_crlf b) [
  | none ↦ ok (stops true c b)
  | some crlf ↦ do
    r ← process_request_line c.request (slice b.buffer (peek b) (crlf - peek b))
    if r.0
        then retrieve_until b (crlf + 2) >>= (λ b'.
          ok (goes_on (record { state = expect_headers; request = set_receive_time r.1 t }) b'))
        else ok (stops false (record c { request = r.1 }) b)
]

unfoldable pub header_turn : HttpContext → Buffer → Result (Turn Buffer)
header_turn c b = elim (find_crlf b) [
  | none ↦ ok (stops true c b)
  | some crlf ↦
      let line = slice b.buffer (peek b) (crlf - peek b) in
      elim (find_byte b':' line) [
        | some colon ↦
            retrieve_until b (crlf + 2)
            >>= (λ b'. ok (goes_on (record c { request = add_header c.request line colon }) b'))
        | none ↦
            retrieve_until b (crlf + 2)
            >>= (λ b'. ok (stops true (record c { state = got_all }) b'))
      ]
]

-- In the last two states the loop's body does nothing.
unfoldable pub turn : HttpContext → Buffer → ℕ → Result (Turn Buffer)
turn c b t = elim c.state [
  | expect_request_line ↦ request_line_turn c b t
  | expect_headers ↦ header_turn c b
  | expect_body ↦ ok (goes_on c b)
  | got_all ↦ ok (goes_on c b)
]

-- The loop on fuel; `none` means that the fuel ran out.
unfoldable pub parse_request :
    ℕ → HttpContext → Buffer → ℕ → Option (Result (Bool × HttpContext × Buffer))
parse_request zero c b t = none
parse_request (suc fuel) c b t = elim (turn c b t) [
  | err e ↦ some (err e)
  | ok (stops good c' b') ↦ some (ok (good, c', b'))
  | ok (goes_on c' b') ↦ parse_request fuel c' b' t
]
