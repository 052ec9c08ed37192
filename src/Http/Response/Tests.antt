-- ===== src/Http/Response/Tests.antt =====
-- HttpResponse.cpp at a concrete response.
use event_loop.Prelude.{◌≡◌, ◌<◌, false, [], ◌∷◌, ok, arith, length}
use event_loop.Buffer.{Buffer}
use event_loop.Buffer.Append.{Appended}
use event_loop.Buffer.Bounds.{IsValid}
use event_loop.Http.Response.{HttpResponse, ok200, decimal, digits, append_to_buffer}
use event_loop.StringPiece.Order.{before_zero}
use event_loop.Http.Response.Printing.{
  response_text, connection_text, headers_text, append_to_buffer_lem,
}

-- A response of three bytes, one of them zero, with one header, that keeps the connection.
abbrev greeting : HttpResponse
greeting = record {
  headers = (b'A' ∷ [], b'b' ∷ []) ∷ [];
  status_code = ok200;
  status_message = b'O' ∷ b'K' ∷ [];
  close_connection = false;
  body = b'h' ∷ 0 ∷ b'!' ∷ [];
}

abbrev empty : Buffer
empty = record {
  buffer = 0 ∷ 0 ∷ 0 ∷ 0 ∷ 0 ∷ 0 ∷ 0 ∷ 0 ∷ 0 ∷ [];
  reader_index = 8;
  writer_index = 8;
}

empty-IsValid : IsValid empty
empty-IsValid = omega arith

text-IsShort : length (response_text greeting) < 100
unfolding before_zero response_text decimal digits connection_text headers_text
text-IsShort = omega arith

append_to_buffer_lem_example :
    (b' : Buffer) × (append_to_buffer greeting empty ≡ ok b')
    × Appended empty (response_text greeting) b'
append_to_buffer_lem_example =
    append_to_buffer_lem greeting empty (omega arith, omega arith, (omega arith, omega arith, tt))
      empty-IsValid (omega (arith, text-IsShort))
