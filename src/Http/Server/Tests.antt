-- ===== src/Http/Server/Tests.antt =====
-- HttpServer.cpp at a concrete connection.
use event_loop.Prelude.{
  ◌≤◌, ◌≡◌, refl, true, false, none, some, ◌++◌, [], ◌∷◌, ok, arith, length, if◌then◌else◌,
}
use event_loop.Buffer.{Buffer, contents}
use event_loop.Buffer.Bounds.{IsValid}
use event_loop.Http.Request.{get, http11}
use event_loop.Http.Response.{new_response, decimal, digits}
use event_loop.StringPiece.Order.{before_zero}
use event_loop.Http.Response.Printing.{response_text, connection_text, headers_text}
use event_loop.Http.Server.{default_http_callback, reply, on_message, on_connection}
use event_loop.Http.Context.{new_context, got_all}
use event_loop.Http.Context.RoundTrip.{IsPrintable, print_request, print_headers, parsed}
use event_loop.Http.Server.Messages.{on_message_lem}
use event_loop.Http.Server.Replies.{Replied}
use event_loop.TcpConnection.State.{connected, disconnecting, TcpConnection, wrote}

abbrev empty : Buffer
empty = record { buffer = 0 ∷ 0 ∷ 0 ∷ 0 ∷ 0 ∷ 0 ∷ 0 ∷ 0 ∷ []; reader_index = 8; writer_index = 8 }

empty-IsValid : IsValid empty
empty-IsValid = omega arith

abbrev idle : TcpConnection
idle = record {
  state = connected;
  reading = true;
  channel = record {
    fd = 5;
    reads = true;
    writes = false;
    revents = 0;
    index = none;
    log_hup = true;
    tied = true;
    event_handling = false;
    added_to_loop = true;
    callbacks = record { on_read = true; on_write = true; on_close = true; on_error = true };
  };
  wants_write_complete = false;
  wants_high_water = false;
  high_water_mark = 64;
  input = empty;
  output = empty;
  wire = [];
  calls = [];
  queue = [];
}

-- GET / HTTP/1.1, without headers, and one byte behind it.
abbrev get_root : Buffer
unfolding print_request
get_root = record {
  buffer =
      0 ∷ 0 ∷ 0 ∷ 0 ∷ 0 ∷ 0 ∷ 0 ∷ 0 ∷ (print_request get (b'/' ∷ []) [] http11 [] ++ b'z' ∷ []);
  reader_index = 8;
  writer_index = 27;
}

get_root-IsValid : IsValid get_root
unfolding print_request print_headers
get_root-IsValid = omega arith

get_root-IsPrintable : IsPrintable get (b'/' ∷ []) [] http11 []
get_root-IsPrintable = record {
  known = λ e. cc;
  versioned = λ e. cc;
  no_question = omega arith;
  no_blank = omega arith;
  no_return = omega arith;
  query_no_blank = tt;
  query_no_return = tt;
  proper_query = tt;
  proper_headers = tt;
}

get_root-begins : contents get_root ≡ print_request get (b'/' ∷ []) [] http11 [] ++ b'z' ∷ []
unfolding print_request print_headers
get_root-begins = refl

root_text-IsShort :
    length (response_text (reply default_http_callback (parsed get (b'/' ∷ []) [] http11 [] 5)))
    ≤ 100
unfolding before_zero new_response response_text decimal digits connection_text headers_text
root_text-IsShort = omega arith

-- The context that a new connection is given.
connected_context : on_connection idle (record new_context { state = got_all }) ≡ new_context
unfolding on_connection
connected_context = refl

on_message_lem_example :
    (d : TcpConnection) × (b' : Buffer) × (on_message 2 default_http_callback idle new_context
        get_root 5
        (wrote 0)
        (wrote 7)
      ≡ some (ok (d, new_context, b')))
    × IsValid b'
    × (contents b' ≡ b'z' ∷ [])
    × Replied idle
        (response_text (reply default_http_callback (parsed get (b'/' ∷ []) [] http11 [] 5)))
        (wrote 7)
        d
    × (d.state ≡ (
        if (reply default_http_callback (parsed get (b'/' ∷ []) [] http11 [] 5)).close_connection
        then disconnecting
        else connected))
unfolding new_response
on_message_lem_example =
    on_message_lem default_http_callback idle get (b'/' ∷ []) [] http11 [] (b'z' ∷ []) 5 get_root
      (wrote 0) (wrote 7) get_root-IsPrintable get_root-IsValid get_root-begins refl empty-IsValid
      (λ h. absurd (omega arith)) (omega arith, omega arith, tt) (omega (arith, root_text-IsShort))
      (omega (arith, root_text-IsShort))
