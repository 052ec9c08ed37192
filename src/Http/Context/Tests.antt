-- ===== src/Http/Context/Tests.antt =====
-- HttpContext.cpp at concrete requests.
use event_loop.Prelude.{
  ◌≡◌, refl, inl, Bool, true, false, none, some, List, [], ◌∷◌, ◌++◌, ok, arith,
}
use event_loop.Buffer.{
  Buffer, contents, append, ensure_writable_bytes, has_written, retrieve_until, retrieve,
  retrieve_all, cr, lf, find_crlf, search_pair, find_byte,
}
use event_loop.Buffer.Bounds.{IsValid}
use event_loop.Http.Request.{
  Bytes, get, http11, new_request, set_method, method_of, skip_spaces, trim_end,
}
use event_loop.Http.Context.{
  HttpContext, new_context, expect_headers, got_all, process_request_line, turn, request_line_turn,
  header_turn, parse_request,
}
use event_loop.Http.Context.Lines.{parse}
use event_loop.Http.Context.Refine.{SameEnd, parse_refines}
use event_loop.Http.Context.Progress.{parse_request_total, parse_request_hangs}
use event_loop.Http.Context.Chunks.{parse_request_chunks}
use event_loop.Http.Context.RoundTrip.{
  Header, IsPrintable, parse-print_request, parsed, print_request,
}

abbrev path : Bytes
path = b'/' ∷ b'a' ∷ []

abbrev query : Bytes
query = b'?' ∷ b'x' ∷ []

abbrev headers : List Header
headers = (b'H' ∷ [], b'v' ∷ b' ' ∷ b'w' ∷ []) ∷ []

-- GET /a?x HTTP/1.1, with one header.
sample-IsPrintable : IsPrintable get path query http11 headers
unfolding skip_spaces trim_end
sample-IsPrintable = record {
  known = λ e. cc;
  versioned = λ e. cc;
  no_question = omega arith;
  no_blank = omega arith;
  no_return = omega arith;
  query_no_blank = omega arith;
  query_no_return = omega arith;
  proper_query = refl;
  proper_headers = (omega arith, omega arith, omega arith, refl, refl, tt);
}

parse-print_request_example :
    parse 3 new_context (print_request get path query http11 headers ++ b'z' ∷ []) 5
    ≡ some (
        ok (
          true,
          record { state = got_all; request = parsed get path query http11 headers 5 },
          b'z' ∷ [],
        ))
parse-print_request_example =
    parse-print_request get path query http11 headers (b'z' ∷ []) 5 sample-IsPrintable

-- "GET\r\n" behind eight free bytes: a request line without a blank.
abbrev bad_line : Buffer
bad_line = record {
  buffer = 0 ∷ 0 ∷ 0 ∷ 0 ∷ 0 ∷ 0 ∷ 0 ∷ 0 ∷ b'G' ∷ b'E' ∷ b'T' ∷ b' ' ∷ cr ∷ lf ∷ [];
  reader_index = 8;
  writer_index = 14;
}

bad_line-IsValid : IsValid bad_line
bad_line-IsValid = omega arith

parse_refines_example :
    SameEnd (parse_request 4 new_context bad_line 5) (parse 4 new_context (contents bad_line) 5)
parse_refines_example = parse_refines 4 new_context 5 bad_line-IsValid

parse_request_total_example :
    (r : Bool × HttpContext × Buffer) × (parse_request 7 new_context bad_line 5 ≡ some (ok r))
    × IsValid r.2
parse_request_total_example =
    parse_request_total 7 new_context 5 bad_line-IsValid refl (omega arith)

parse_request_hangs_example :
    parse_request 9 (record new_context { state = got_all }) bad_line 5 ≡ none
parse_request_hangs_example =
    parse_request_hangs 9 (record new_context { state = got_all }) bad_line 5 (inl refl)

-- The context after the line: the method is set.
abbrev refused : HttpContext
refused = record new_context { request = record new_request { method = get } }

refused_test : parse_request 1 new_context bad_line 5 ≡ some (ok (false, refused, bad_line))
unfolding parse_request turn request_line_turn process_request_line find_crlf search_pair find_byte
    set_method method_of
refused_test = refl

-- "\r" and then "\n", where the headers end.
abbrev reading : HttpContext
reading = record { state = expect_headers; request = new_request }

abbrev held : Buffer
held = record {
  buffer = 0 ∷ 0 ∷ 0 ∷ 0 ∷ 0 ∷ 0 ∷ 0 ∷ 0 ∷ cr ∷ 0 ∷ [];
  reader_index = 8;
  writer_index = 9;
}

held-IsValid : IsValid held
held-IsValid = omega arith

abbrev grown : Buffer
grown = record {
  buffer = 0 ∷ 0 ∷ 0 ∷ 0 ∷ 0 ∷ 0 ∷ 0 ∷ 0 ∷ cr ∷ lf ∷ [];
  reader_index = 8;
  writer_index = 10;
}

abbrev emptied : Buffer
emptied = record grown { writer_index = 8 }

waits_test : parse_request 1 reading held 5 ≡ some (ok (true, reading, held))
unfolding parse_request turn header_turn find_crlf search_pair
waits_test = refl

grows_test : append held (lf ∷ []) ≡ ok grown
unfolding append ensure_writable_bytes has_written
grows_test = refl

ends_test :
    parse_request 1 reading grown 5 ≡ some (ok (true, record reading { state = got_all }, emptied))
unfolding parse_request turn header_turn find_crlf search_pair find_byte retrieve_until retrieve
    retrieve_all
ends_test = refl

parse_request_chunks_example :
    (w w' : Buffer) × (append held (lf ∷ []) ≡ ok w)
    × (parse_request 2 reading w 5 ≡ some (ok (true, record reading { state = got_all }, w')))
    × IsValid w'
    × (contents w' ≡ contents emptied)
parse_request_chunks_example =
    parse_request_chunks 1 1 reading reading (record reading { state = got_all }) held held grown
      emptied (lf ∷ []) 5 true held-IsValid (omega arith) (omega arith) waits_test tt grows_test
      ends_test
