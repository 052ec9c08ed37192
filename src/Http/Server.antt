-- ===== src/Http/Server.antt =====
-- src/HttpServer.cpp: the context of a connection, what is done with the bytes that arrive, and the answer to a
-- request. The user's callback is an argument: it is given the request and a response, and gives the response back.
pub mod Replies
pub mod Messages
mod Tests
use event_loop.Prelude.{
  ℕ, ◌++◌, Option, none, some, err, Bool, true, false, ◌&&◌, ◌||◌, not, List, [], ◌∷◌,
  if◌then◌else◌, Result, ok, ◌>>=◌,
}
use event_loop.Buffer.{Buffer, new_buffer, initial_size}
use event_loop.Http.Request.{
  Bytes, HttpRequest, Version, unknown, http10, http11, bytes_eq, get_header,
}
use event_loop.Http.Response.{HttpResponse, not_found404, new_response, append_to_buffer}
use event_loop.TcpConnection.State.{TcpConnection, is_connected, Write}
use event_loop.Http.Context.{HttpContext, new_context, is_got_all, reset, parse_request}
use event_loop.TcpConnection.Send.{send, send_buffer}
use event_loop.TcpConnection.Close.{shutdown}

abbrev pub connection_field : Bytes
connection_field = b'C' ∷ b'o' ∷ b'n' ∷ b'n' ∷ b'e' ∷ b'c' ∷ b't' ∷ b'i' ∷ b'o' ∷ b'n' ∷ []

abbrev pub close_value : Bytes
close_value = b'c' ∷ b'l' ∷ b'o' ∷ b's' ∷ b'e' ∷ []

abbrev pub keep_alive_value : Bytes
keep_alive_value = b'K' ∷ b'e' ∷ b'e' ∷ b'p' ∷ b'-' ∷ b'A' ∷ b'l' ∷ b'i' ∷ b'v' ∷ b'e' ∷ []

abbrev pub is_http10 : Version → Bool
is_http10 http10 = true
is_http10 http11 = false
is_http10 unknown = false

-- The callback of a server that has not been given one.
abbrev pub default_http_callback : HttpRequest → HttpResponse → HttpResponse
default_http_callback request response = record response {
  status_code = not_found404;
  status_message = b'N' ∷ b'o' ∷ b't' ∷ 32 ∷ b'F' ∷ b'o' ∷ b'u' ∷ b'n' ∷ b'd' ∷ [];
  close_connection = true;
}

-- The context of a connection, whose callback is called as it is made and as it goes.
unfoldable pub on_connection : TcpConnection → HttpContext → HttpContext
on_connection c context = if is_connected c.state then new_context else context

-- Whether the request asks for the connection to be closed.
pub wants_close : HttpRequest → Bool
wants_close request =
    let connection = get_header request connection_field in
    bytes_eq connection close_value
    || (is_http10 request.version && not (bytes_eq connection keep_alive_value))

-- The response that the callback makes of the one it is given.
abbrev pub reply : (HttpRequest → HttpResponse → HttpResponse) → HttpRequest → HttpResponse
reply callback request = callback request (new_response (wants_close request))

unfoldable pub on_request :
    (HttpRequest → HttpResponse → HttpResponse)
    → TcpConnection
    → HttpRequest
    → Write
    → Result TcpConnection
on_request callback c request answer =
    let response = reply callback request in
    new_buffer initial_size >>= (λ buf. append_to_buffer response buf >>= (λ filled.
      send_buffer c filled answer
      >>= (λ sent. ok (if response.close_connection then shutdown sent.0 else sent.0))))

abbrev pub bad_request : Bytes
bad_request =
    b'H' ∷ b'T' ∷ b'T' ∷ b'P' ∷ b'/' ∷ b'1' ∷ b'.' ∷ b'1' ∷ 32 ∷ b'4' ∷ b'0' ∷ b'0' ∷ 32 ∷ b'B'
    ∷ b'a' ∷ b'd' ∷ 32 ∷ b'R' ∷ b'e' ∷ b'q' ∷ b'u' ∷ b'e' ∷ b's' ∷ b't' ∷ []

abbrev pub refusal : Bytes
refusal = bad_request ++ 13 ∷ 10 ∷ 13 ∷ 10 ∷ []

-- What follows the parsing: the refusal, and the answer to a whole request. `first` and `second` are the
-- kernel's answers to the two writes.
unfoldable pub after_parsing :
    (HttpRequest → HttpResponse → HttpResponse)
    → TcpConnection
    → Bool × HttpContext × Buffer
    → Write
    → Write
    → Result (TcpConnection × HttpContext × Buffer)
after_parsing callback c (good, context, b) first second =
    (if good then ok c else send c refusal first >>= (λ d. ok (shutdown d))) >>= (λ d.
      if is_got_all context
      then on_request callback d context.request second >>= (λ e. ok (e, reset context, b))
      else ok (d, context, b))

-- `none` means that the fuel of the parser ran out.
unfoldable pub on_message :
    ℕ
    → (HttpRequest → HttpResponse → HttpResponse)
    → TcpConnection
    → HttpContext
    → Buffer
    → ℕ
    → Write
    → Write
    → Option (Result (TcpConnection × HttpContext × Buffer))
on_message fuel callback c context b t first second = elim (parse_request fuel context b t) [
  | none ↦ none
  | some (err e) ↦ some (err e)
  | some (ok end) ↦ some (after_parsing callback c end first second)
]
