-- ===== src/TcpServer.antt =====
-- src/TcpServer.h and src/TcpServer.cpp: the connections that a server keeps by their names. A connection is
-- its name, its loop and its socket. `established` and `destroyed` note the connections whose
-- `connectEstablished` and `connectDestroyed` were handed to their loops, in order. The acceptor is in the
-- thread of the server's loop, as all this is.
pub mod Names
pub mod Table
pub mod Serving
pub mod Life
mod Tests
use event_loop.Prelude.{
  ℕ, ◌+◌, Bool, true, false, not, map, Option, none, some, newest, List, [], ◌∷◌, ◌++◌, take, ◌==◌,
  ℤ, is_negative, pos_part, if◌then◌else◌, Result, ok, err, check, ◌>>=◌, ◌>>◌,
}
use event_loop.Http.Request.{Bytes, bytes_eq}
use event_loop.Http.Response.{decimal}
use event_loop.EventLoopThreadPool
use event_loop.EventLoopThreadPool.{EventLoopThreadPool, new_pool, get_next_loop}
use event_loop.SocketsOps.{Errno, Accepted}
use event_loop.Acceptor
use event_loop.Acceptor.{Acceptor, new_acceptor, listen, handle_read, end_acceptor}

pub record Connection {ℓ} (L : Type ℓ) : Type ℓ where
  pub conn_name : Bytes
  pub io_loop : L
  pub socket : ℕ

pub record TcpServer {ℓ} (L : Type ℓ) : Type ℓ where
  pub server_name : Bytes
  pub ip_port : Bytes
  pub pool : EventLoopThreadPool L
  pub next_conn_id : ℕ
  pub connections : List (Bytes × Connection L)
  pub established : List (Connection L)
  pub destroyed : List (Connection L)
  pub acceptor : Acceptor
  pub started : Bool

-- The name of a connection: `snprintf` into 64 bytes, the last of them 0, behind the server's name.
abbrev pub name_of : Bytes → Bytes → ℕ → Bytes
name_of server_name ip_port n = server_name ++ take 63 (45 ∷ (ip_port ++ 35 ∷ decimal n))

module _ {ℓ} {L : Type ℓ} where
  -- `std::map` of the connections, in any order.
  unfoldable pub erase : Bytes → List (Bytes × Connection L) → List (Bytes × Connection L)
  erase k [] = []
  erase k (e ∷ es) = let rest = erase k es in if bytes_eq k e.0 then rest else e ∷ rest

  unfoldable pub put :
      Bytes → Connection L → List (Bytes × Connection L) → List (Bytes × Connection L)
  unfolding erase
  put k c es = (k, c) ∷ erase k es

  unfoldable pub count : Bytes → List (Bytes × Connection L) → ℕ
  count k [] = 0
  count k (e ∷ es) = (if bytes_eq k e.0 then 1 else 0) + count k es

  unfoldable pub lookup : Bytes → List (Bytes × Connection L) → Option (Connection L)
  lookup k [] = none
  lookup k (e ∷ es) = let rest = lookup k es in if bytes_eq k e.0 then some e.1 else rest

  unfoldable pub new_connection : TcpServer L → ℕ → Result (TcpServer L)
  unfolding put
  new_connection s sockfd = get_next_loop s.pool >>= λ r.
      (let conn_name = name_of s.server_name s.ip_port s.next_conn_id in
        let conn : Connection L = record {
          conn_name = conn_name;
          io_loop = r.1;
          socket = sockfd;
        } in
        ok (record s {
          pool = r.0;
          next_conn_id = s.next_conn_id + 1;
          connections = put conn_name conn s.connections;
          established = s.established ++ conn ∷ [];
        }))

  unfoldable pub remove_connection_in_loop : TcpServer L → Connection L → Result (TcpServer L)
  unfolding erase count
  remove_connection_in_loop s conn =
      check (count conn.conn_name s.connections == 1)
      >> ok (record s {
        connections = erase conn.conn_name s.connections;
        destroyed = s.destroyed ++ conn ∷ [];
      })

  -- The listening socket and the spare descriptor of the acceptor are arguments.
  unfoldable pub new_server : L → Bytes → Bytes → ℕ → ℕ → TcpServer L
  unfolding new_acceptor
  new_server loop ip_port name sockfd idle = record {
    server_name = name;
    ip_port = ip_port;
    pool = new_pool loop name;
    next_conn_id = 1;
    connections = [];
    established = [];
    destroyed = [];
    acceptor = record (new_acceptor sockfd idle) { has_callback = true };
    started = false;
  }

  unfoldable pub start : (Bytes → L) → Bool → TcpServer L → Result (TcpServer L)
  unfolding listen
  start start_loop has_callback s =
      if s.started
      then ok s
      else (EventLoopThreadPool.start start_loop has_callback s.pool >>= λ p.
          check (not s.acceptor.listening)
          >> ok (record s { started = true; pool = p; acceptor = listen s.acceptor }))

  unfoldable pub admit : TcpServer L → Option ℕ → Result (TcpServer L)
  admit s none = ok s
  admit s (some sockfd) = new_connection s sockfd

  -- The listening socket is readable: `newConnection` is the acceptor's callback.
  unfoldable pub on_accept :
      (Option ℕ → Errno → Errno)
      → (Errno → Errno)
      → TcpServer L
      → Errno
      → Accepted
      → Accepted
      → Option ℕ
      → Result (TcpServer L)
  unfolding admit
  on_accept fcntl print s before first second reopened =
      let a = handle_read fcntl print s.acceptor before first second reopened in
      admit (record s { acceptor = a }) (newest s.acceptor.passed a.passed)

  abbrev pub value : Bytes × Connection L → Connection L
  value e = e.1

  unfoldable pub set_thread_num : TcpServer L → ℤ → Result (TcpServer L)
  unfolding EventLoopThreadPool.set_thread_num
  set_thread_num s n =
      check (not (is_negative n))
      >> ok (record s { pool = EventLoopThreadPool.set_thread_num s.pool (pos_part n) })

  -- The loop of the destructor. `runInLoop` in a connection's loop calls `connectDestroyed` at once if that is the
  -- server's loop, and an assertion of the call may then fail: what it ends in is an argument.
  unfoldable pub destroy_all :
      (Connection L → Result (Unit {0}))
      → List (Bytes × Connection L)
      → List (Connection L)
      → Result (List (Connection L))
  destroy_all run [] done = ok done
  destroy_all run (e ∷ es) done = run e.1 >> destroy_all run es (done ++ e.1 ∷ [])

  -- The destructor, with that of the acceptor.
  unfoldable pub end_server :
      (Connection L → Result (Unit {0})) → TcpServer L → Result (TcpServer L)
  end_server run s = destroy_all run s.connections s.destroyed >>= (λ done.
      end_acceptor s.acceptor >>= λ a.
      ok (record s { connections = []; destroyed = done; acceptor = a }))
