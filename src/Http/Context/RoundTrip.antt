-- ===== src/Http/Context/RoundTrip.antt =====
-- HttpContext.cpp: a request that is written out by the rules of HTTP is read back.
use event_loop.Prelude.{
  ℕ, suc, ◌≡◌, ◌≢◌, ap, ◌∙◌, true, some, List, [], ◌∷◌, ◌++◌, append_assoc, ok, arith, length,
  take-append_self,
}
use event_loop.Buffer.{cr, lf}
use event_loop.Http.Request.{
  Bytes, HttpRequest, Method, invalid, get, post, head, put, delete, Version, unknown, http10,
  http11, method_name, assign, skip_spaces, trim_end, add_header, set_receive_time,
}
use event_loop.Http.Context.{HttpContext, expect_headers, got_all, new_context}
use event_loop.Http.Context.Lines.{on_line, turn_bytes, parse}
use event_loop.Http.Context.RequestLine.{
  Lacks, find_byte-found, find_byte-Lacks, Lacks-append, first_line_lem, drop-cons,
  process_request_line_lem, tail_of, request_line, IsQuery, parsed_line,
}

-- The header lines, as they are written and as they are read.
abbrev pub Header : Type 0
Header = Bytes × Bytes

pub header_line : Header → Bytes
header_line (f, v) = f ++ b':' ∷ b' ' ∷ v

unfoldable pub print_headers : List Header → Bytes
print_headers [] = []
print_headers (h ∷ hs) = header_line h ++ cr ∷ lf ∷ print_headers hs

-- A field has no colon, nothing has a carriage return, and a value has no blanks at its ends.
abbrev pub AreHeaders : List Header → Type 0
AreHeaders [] = Unit {0}
AreHeaders ((f, v) ∷ hs) =
    Lacks b':' f × Lacks cr f × Lacks cr v × (skip_spaces v ≡ v) × (trim_end v ≡ v) × AreHeaders hs

pub assign_all : List Header → List Header → List Header
assign_all [] acc = acc
assign_all ((f, v) ∷ hs) acc = assign_all hs (assign f v acc)

add_header_lem :
    (r : HttpRequest) (f v : Bytes)
    → skip_spaces v ≡ v
    → trim_end v ≡ v
    → add_header r (header_line (f, v)) (length f) ≡ record r { headers = assign f v r.headers }
unfolding add_header header_line
add_header_lem r f v h k =
    rw (take-append_self f (b':' ∷ b' ' ∷ v), drop-cons f b':' (b' ' ∷ v), h, k)

abbrev reading_headers : HttpRequest → HttpContext
reading_headers r = record { state = expect_headers; request = r }

parse_headers :
    (hs : List Header) (r : HttpRequest) (more : Bytes) (t : ℕ)
    → AreHeaders hs
    → parse (suc (length hs)) (reading_headers r) (print_headers hs ++ cr ∷ lf ∷ more) t
      ≡ some (
          ok (
            true,
            record { state = got_all; request = record r { headers = assign_all hs r.headers } },
            more,
          ))
unfolding parse turn_bytes on_line print_headers header_line assign_all
parse_headers [] r more t h =
    rw (first_line_lem [] more tt, parse, turn_bytes, find_byte-Lacks b':' [] tt, on_line)
parse_headers ((f, v) ∷ hs) r more t (colon, cr_f, cr_v, skips, trims, rest) =
    let line = header_line (f, v) in
    let after = print_headers hs ++ cr ∷ lf ∷ more in
    let whole : Lacks cr line =
      Lacks-append cr f (b':' ∷ b' ' ∷ v) cr_f (omega arith, (omega arith, cr_v)) in
    rw
      (
        append_assoc line (cr ∷ lf ∷ print_headers hs) (cr ∷ lf ∷ more),
        first_line_lem line after whole,
        parse,
        turn_bytes,
        find_byte-found b':' f (b' ' ∷ v) colon,
        on_line,
      )
      (ap (λ (x : HttpRequest). parse (suc (length hs)) (reading_headers x) after t)
          (add_header_lem r f v skips trims)
        ∙ parse_headers hs (record r { headers = assign f v r.headers }) more t rest)

-- A whole request.
unfoldable pub print_request : Method → Bytes → Bytes → Version → List Header → Bytes
print_request m path query v hs =
    request_line m (path ++ query) v ++ cr ∷ lf ∷ (print_headers hs ++ cr ∷ lf ∷ [])

-- What may be written: a known method and version, a path without blank, question mark or carriage
-- return, a query that is empty or begins with a question mark, and proper headers.
pub record IsPrintable (m : Method) (path query : Bytes) (v : Version) (hs : List Header)
    : Type 0 where
  pub known : m ≢ invalid
  pub versioned : v ≢ unknown
  pub no_question : Lacks b'?' path
  pub no_blank : Lacks b' ' path
  pub no_return : Lacks cr path
  pub query_no_blank : Lacks b' ' query
  pub query_no_return : Lacks cr query
  pub proper_query : IsQuery query
  pub proper_headers : AreHeaders hs

method_no_return : (m : Method) → Lacks cr (method_name m)
method_no_return invalid = omega arith
method_no_return get = omega arith
method_no_return post = omega arith
method_no_return head = omega arith
method_no_return put = omega arith
method_no_return delete = omega arith

tail_no_return : (v : Version) → Lacks cr (tail_of v)
tail_no_return unknown = omega arith
tail_no_return http10 = omega arith
tail_no_return http11 = omega arith

-- The request that is read.
abbrev pub parsed : Method → Bytes → Bytes → Version → List Header → ℕ → HttpRequest
parsed m path query v hs t = record (parsed_line m path query v) {
  receive_time = t;
  headers = assign_all hs [];
}

-- A printable request, with whatever bytes behind it, is read by a new parser: it has got all, its
-- request has the method, path, query, version, headers and receive time, and the bytes behind the
-- request are left. Two rounds more than there are headers are enough.
pub parse-print_request :
    (m : Method) (path query : Bytes) (v : Version) (hs : List Header) (more : Bytes) (t : ℕ)
    → IsPrintable m path query v hs
    → parse (suc (suc (length hs))) new_context (print_request m path query v hs ++ more) t
      ≡ some (ok (true, record { state = got_all; request = parsed m path query v hs t }, more))
unfolding parse turn_bytes on_line print_request set_receive_time
parse-print_request m path query v hs more t p =
    rw
      (
        append_assoc (request_line m (path ++ query) v)
            (cr ∷ lf ∷ (print_headers hs ++ cr ∷ lf ∷ [])) more,
        append_assoc (print_headers hs) (cr ∷ lf ∷ []) more,
        first_line_lem (request_line m (path ++ query) v) (print_headers hs ++ cr ∷ lf ∷ more)
            whole,
        parse,
        turn_bytes,
        process_request_line_lem m path query v p.known p.versioned p.no_question p.no_blank
            p.query_no_blank p.proper_query,
        on_line,
      )
      (parse_headers hs (record (parsed_line m path query v) { receive_time = t }) more t
        p.proper_headers)
  where
    whole : Lacks cr (request_line m (path ++ query) v)
    whole =
        Lacks-append cr (method_name m) (b' ' ∷ ((path ++ query) ++ b' ' ∷ tail_of v))
          (method_no_return m)
          (
            omega arith,
            Lacks-append cr (path ++ query) (b' ' ∷ tail_of v)
                (Lacks-append cr path query p.no_return p.query_no_return)
                (omega arith, tail_no_return v),
          )
