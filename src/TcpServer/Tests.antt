-- ===== src/TcpServer/Tests.antt =====
-- A server with a connection, for examples.
use event_loop.Prelude.{
  ◌+◌, Option, map, reverse, false, ℕ, ◌≡◌, refl, true, false, none, some, [], ◌∷◌, ok, arith,
}
use event_loop.Http.Request.Headers.{bytes_eq_self}
use event_loop.Channel.{new_channel}
use event_loop.EventLoopThreadPool.{new_pool, get_next_loop}
use mathlib.Core.List.{Perm}
use event_loop.EventLoopThreadPool
use event_loop.Connector.Sockets
use event_loop.SocketsOps.{Errno, ebadf, eagain, accepted, refused, accept}
use event_loop.Acceptor.{new_acceptor, listen, handle_read, give}
use event_loop.TcpServer.Serving.{socket_of}
use event_loop.TcpServer.Life.{Reach, here, next, starts, accepts, end_server-perm}
use event_loop.TcpServer.{
  new_server, start, on_accept, admit, put, erase, end_server, Connection, TcpServer, name_of,
  lookup, new_connection,
}
use event_loop.TcpServer.Table.{IsTable}

abbrev first : Connection ℕ
first = record { conn_name = name_of (115 ∷ []) (49 ∷ []) 1; io_loop = 7; socket = 5 }

abbrev server : TcpServer ℕ
server = record {
  server_name = 115 ∷ [];
  ip_port = 49 ∷ [];
  pool = record (new_pool 7 []) { started = true };
  next_conn_id = 2;
  connections = (first.conn_name, first) ∷ [];
  established = first ∷ [];
  destroyed = [];
  acceptor = record {
    channel = new_channel 3;
    has_callback = true;
    listening = true;
    idle_fd = some 4;
    opened = 5 ∷ 4 ∷ [];
    closed = [];
    passed = 5 ∷ [];
  };
  started = true;
}

server-IsTable : IsTable server
server-IsTable = (1, (omega arith, (refl, tt)))

first_found : lookup first.conn_name server.connections ≡ some first
unfolding lookup
first_found = rw (bytes_eq_self first.conn_name) refl

-- fcntl(2) and printf(3) as they are.
fcntl : Option ℕ → Errno → Errno
fcntl none e = ebadf
fcntl (some fd) e = e

print : Errno → Errno
print e = e

-- A new server with no threads that was started, and accepted socket 5.
abbrev open_server : TcpServer ℕ
unfolding new_server new_acceptor listen
open_server =
    let fresh : TcpServer ℕ = new_server 7 (49 ∷ []) (115 ∷ []) 3 4 in
    record fresh {
      pool = record fresh.pool { started = true };
      acceptor = listen fresh.acceptor;
      started = true;
    }

abbrev serving : TcpServer ℕ
unfolding new_server new_acceptor listen
serving = record open_server {
  next_conn_id = 2;
  connections = (first.conn_name, first) ∷ [];
  established = first ∷ [];
  acceptor = record open_server.acceptor { opened = 5 ∷ 4 ∷ []; passed = 5 ∷ [] };
}

serving-Reach : Reach fcntl print (new_server 7 (49 ∷ []) (115 ∷ []) 3 4) serving
unfolding start EventLoopThreadPool.start listen new_server new_acceptor on_accept handle_read
    accept give admit new_connection get_next_loop put erase
serving-Reach =
    next {d = open_server} (next here (starts (λ name. 8) false refl))
      (accepts eagain (accepted 5) (refused eagain) none (omega arith) refl)

end_server-perm_example :
    (d : TcpServer ℕ) × (end_server (λ c. ok tt) serving ≡ ok d)
    × (d.connections ≡ [])
    × Perm d.established d.destroyed
    × (map socket_of d.established ≡ reverse d.acceptor.passed)
    × ((n : ℕ)
        → Sockets.count n d.acceptor.opened
          ≡ Sockets.count n d.acceptor.closed + Sockets.count n d.acceptor.passed)
end_server-perm_example =
    end_server-perm fcntl print 7 (49 ∷ []) (115 ∷ []) 3 4 (omega arith) serving-Reach (λ c. ok tt)
      (λ c. refl)
