-- ===== src/Http/Server/Messages.antt =====
-- HttpServer.cpp: `onMessage` on a whole request.
use event_loop.Prelude.{
  ℕ, suc, ◌+◌, ◌≤◌, ◌≡◌, ap, ap₂, subst, ◌∙◌, Bool, true, List, ◌++◌, length, Option, none, some,
  Result, ok, err, if◌then◌else◌,
}
use event_loop.Buffer.{Buffer, max_size, contents}
use event_loop.Buffer.Bounds.{IsValid}
use event_loop.Http.Request.{Bytes, Method, Version, HttpRequest}
use event_loop.Http.Context.{HttpContext, new_context, got_all, is_got_all, reset, parse_request}
use event_loop.Http.Context.Lines.{parse}
use event_loop.Http.Context.Refine.{SameEnd, parse_refines}
use event_loop.Http.Context.RoundTrip.{
  Header, IsPrintable, print_request, parsed, parse-print_request,
}
use event_loop.Http.Response.{HttpResponse}
use event_loop.Http.Response.Printing.{IsShort, response_text}
use event_loop.Http.Server.{reply, on_request, after_parsing, on_message}
use event_loop.Http.Server.Replies.{Replied, on_request_lem}
use event_loop.TcpConnection.State.{connected, disconnecting, TcpConnection, Write}
use event_loop.TcpConnection.Stream.{IsWatched}

same_ok :
    (r : Option (Result (Bool × HttpContext × Buffer))) (good : Bool) (context : HttpContext)
    (bytes : Bytes)
    → SameEnd r (some (ok (good, context, bytes)))
    → (b : Buffer) × (r ≡ some (ok (good, context, b))) × IsValid b × (contents b ≡ bytes)
same_ok none good context bytes s = absurd s
same_ok (some (err e)) good context bytes s = absurd s
same_ok (some (ok (g, x, b))) good context bytes (p, q, v, c) =
    (b, ap₂ (λ g x. some (ok (g, x, b))) p q, v, c)

-- A buffer that begins with a printable request is parsed to it.
parse_request_lem :
    (m : Method) (path query : Bytes) (v : Version) (hs : List Header) (more : Bytes) (t : ℕ)
    (b : Buffer)
    → IsPrintable m path query v hs
    → IsValid b
    → contents b ≡ print_request m path query v hs ++ more
    → (b' : Buffer) × (parse_request (suc (suc (length hs))) new_context b t
        ≡ some (ok (true, record { state = got_all; request = parsed m path query v hs t }, b')))
      × IsValid b'
      × (contents b' ≡ more)
parse_request_lem m path query v hs more t b p valid begins = same_ok _ true _ more (
    subst (λ r. SameEnd (parse_request (suc (suc (length hs))) new_context b t) r)
      (ap (λ bytes. parse (suc (suc (length hs))) new_context bytes t) begins
        ∙ parse-print_request m path query v hs more t p)
      (parse_refines (suc (suc (length hs))) new_context {b = b} t valid))

on_message-eq :
    (callback : HttpRequest → HttpResponse → HttpResponse) (c : TcpConnection) (fuel : ℕ)
    (b : Buffer) (t : ℕ) (first second : Write) {request : HttpRequest} {b' : Buffer}
    {d : TcpConnection}
    → parse_request fuel new_context b t
      ≡ some (ok (true, record { state = got_all; request = request }, b'))
    → on_request callback c request second ≡ ok d
    → on_message fuel callback c new_context b t first second ≡ some (ok (d, new_context, b'))
unfolding on_message after_parsing is_got_all reset
on_message-eq callback c fuel b t first second e e' = rw (e, e', on_message)

-- For a valid buffer that begins with a printable request, a new context, and a connection that is
-- connected, with a valid output buffer, watched for writing if bytes wait, and with room for the text of
-- the reply to the request, whose strings are shorter than 2 ^ 31 bytes: `onMessage` returns and succeeds, if
-- the parser has two rounds more than there are headers. The reply to that request is behind the
-- bytes written and waiting, unless the write fails for good; the context is new again; the bytes behind
-- the request stay in the buffer, even if they are a whole request; and the connection shuts down
-- exactly if the reply closes it.
pub on_message_lem :
    (callback : HttpRequest → HttpResponse → HttpResponse) (c : TcpConnection) (m : Method)
    (path query : Bytes) (v : Version) (hs : List Header) (more : Bytes) (t : ℕ) (b : Buffer)
    (first second : Write)
    → IsPrintable m path query v hs
    → IsValid b
    → contents b ≡ print_request m path query v hs ++ more
    → c.state ≡ connected
    → IsValid c.output
    → IsWatched c
    → IsShort (reply callback (parsed m path query v hs t))
    → 1032 + length (response_text (reply callback (parsed m path query v hs t))) ≤ max_size
    → c.output.writer_index + length (response_text (reply callback (parsed m path query v hs t)))
      ≤ max_size
    → (d : TcpConnection) × (b' : Buffer) × (on_message
          (suc (suc (length hs)))
          callback
          c
          new_context
          b
          t
          first
          second
        ≡ some (ok (d, new_context, b')))
      × IsValid b'
      × (contents b' ≡ more)
      × Replied c (response_text (reply callback (parsed m path query v hs t))) second d
      × (d.state ≡ (
          if (reply callback (parsed m path query v hs t)).close_connection
          then disconnecting
          else connected))
on_message_lem callback c m path query v hs more t b first second p valid begins up out watched body
      room small =
    let (b', e, valid', left) = parse_request_lem m path query v hs more t b p valid begins in
    let (d, e', replied, state) =
      on_request_lem callback c (parsed m path query v hs t) second up out watched body room
        small in
    (
      d,
      b',
      on_message-eq callback c (suc (suc (length hs))) b t first second e e',
      valid',
      left,
      replied,
      state,
    )
