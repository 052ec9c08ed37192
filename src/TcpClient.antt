-- ===== src/TcpClient.antt =====
-- src/TcpClient.h and src/TcpClient.cpp: a client, which has at most one connection, over its Connector and
-- TcpConnection, in the loop's thread. `destroying` and `destroyed` are the connections whose
-- `connectDestroyed` was queued in the loop, and was called.
mod Calls
mod Attempts
pub mod Single
mod Events
pub mod Life
pub mod Reconnect
mod Tests
use event_loop.Prelude.{
  ℕ, ◌+◌, Bool, true, false, ◌&&◌, Option, none, some, List, [], ◌∷◌, ◌++◌, newest, take, ◌==◌,
  if◌then◌else◌, Result, ok, check, ◌>>=◌, ◌>>◌,
}
use event_loop.Http.Request.{Bytes}
use event_loop.Http.Response.{decimal}
use event_loop.Connector
use event_loop.Connector.{Connector, Errno, new_connector, start_in_loop, handle_write, restart}
use event_loop.TcpConnection.State.{TcpConnection}
use event_loop.TcpConnection.Close.{shutdown, force_close, connect_established, connect_destroyed}
use event_loop.TcpConnection.Machine.{new_tcp_connection, Event, handle, close_calls}

-- A connection of the client: `number` says which one it is, in place of its address.
pub record Connection : Type 0 where
  pub number : ℕ
  pub conn_name : Bytes
  pub socket : ℕ
  pub conn : TcpConnection

pub record TcpClient : Type 0 where
  pub name : Bytes
  pub wants_write_complete : Bool
  pub retry : Bool
  pub wanted : Bool
  pub next_conn_id : ℕ
  pub connector : Connector
  pub connection : Option Connection
  pub destroying : List Connection
  pub destroyed : List Connection

abbrev pub new_client : Bytes → Bool → TcpClient
new_client name wants_write_complete = record {
  name = name;
  wants_write_complete = wants_write_complete;
  retry = false;
  wanted = true;
  next_conn_id = 1;
  connector = new_connector;
  connection = none;
  destroying = [];
  destroyed = [];
}

unfoldable pub enable_retry : TcpClient → TcpClient
enable_retry c = record c { retry = true }

unfoldable pub connect : Bool → TcpClient → ℕ → Errno → Result TcpClient
connect in_loop_thread c sockfd errno =
    Connector.start in_loop_thread c.connector sockfd errno >>= λ k.
    ok (record c { wanted = true; connector = k })

-- `connection_->shutdown()`, if there is one.
abbrev pub shut_down : Option Connection → Option Connection
shut_down none = none
shut_down (some a) = some (record a { conn = shutdown a.conn })

unfoldable pub disconnect : TcpClient → TcpClient
disconnect c = record c { wanted = false; connection = shut_down c.connection }

unfoldable pub stop : TcpClient → TcpClient
stop c = record c { wanted = false; connector = Connector.stop c.connector }

-- The destructor. `unique` says whether the client alone holds the connection. The close callback is then one
-- that only queues `connectDestroyed`.
unfoldable pub abandon : Bool → TcpClient → TcpClient
abandon unique c = elim c.connection [
  | none ↦ record c { connector = Connector.stop c.connector }
  | some a ↦ record c {
    connection = some (record a { conn = if unique then force_close a.conn else a.conn });
  }
]

-- The name: `snprintf` into 32 bytes, the last of them 0, behind the client's.
abbrev pub name_of : Bytes → Bytes → ℕ → Bytes
name_of name peer n = name ++ take 31 (b':' ∷ (peer ++ b'#' ∷ decimal n))

-- `peer` is the printed address of the socket's peer.
unfoldable pub new_connection : TcpClient → Bytes → ℕ → Result TcpClient
new_connection c peer sockfd = do
  fresh ← new_tcp_connection sockfd c.wants_write_complete
  conn ← connect_established fresh
  ok (record c {
    next_conn_id = c.next_conn_id + 1;
    connection = some (record {
      number = c.next_conn_id;
      conn_name = name_of c.name peer c.next_conn_id;
      socket = sockfd;
      conn = conn;
    });
  })

unfoldable pub deliver : TcpClient → Bytes → Option ℕ → Result TcpClient
deliver c peer none = ok c
deliver c peer (some sockfd) = new_connection c peer sockfd

-- The connector's socket is writable: `newConnection` is the connector's callback.
unfoldable pub handle_writable : TcpClient → Bytes → ℕ → Bool → Result TcpClient
unfolding deliver
handle_writable c peer error self_connect = handle_write c.connector error self_connect >>= λ k.
    deliver (record c { connector = k }) peer (newest c.connector.given k.given)

abbrev pub is_current : Option Connection → Connection → Bool
is_current none a = false
is_current (some b) a = b.number == a.number

unfoldable pub remove_connection : TcpClient → Connection → ℕ → Errno → Result TcpClient
remove_connection c a sockfd errno =
    check (is_current c.connection a)
    >> (let d : TcpClient = record c { connection = none; destroying = c.destroying ++ a ∷ [] } in
        if c.retry && c.wanted
        then (restart d.connector sockfd errno >>= λ k. ok (record d { connector = k }))
        else ok d)

-- Something happens to the connection: `removeConnection` is its close callback.
unfoldable pub on_event : TcpClient → Connection → Event → ℕ → Errno → Result TcpClient
on_event c a e sockfd errno = handle a.conn e >>= λ u.
    (let b : Connection = record a { conn = u } in
      let d : TcpClient = record c { connection = some b } in
      if close_calls u.calls == close_calls a.conn.calls
      then ok d
      else remove_connection d b sockfd errno)

-- The loop calls the first `connectDestroyed` that is queued.
unfoldable pub destroy_next : TcpClient → Result TcpClient
destroy_next c = elim c.destroying [
  | [] ↦ ok c
  | a ∷ rest ↦ connect_destroyed a.conn >>= λ u.
      ok (record c { destroying = rest; destroyed = c.destroyed ++ record a { conn = u } ∷ [] })
]
