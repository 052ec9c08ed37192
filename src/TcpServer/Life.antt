-- ===== src/TcpServer/Life.antt =====
-- TcpServer.cpp: a server over time, from its acceptor to the end of its connections.
use event_loop.Prelude.{
  ℕ, ◌+◌, ◌≤◌, ◌<◌, ◌≡◌, refl, sym, ap, subst, ◌∙◌, inl, inr, Bool, true, false, Option, none, some,
  [], map, reverse, length, ok, arith, Bool-cases, Result-cases, newest-none, ==_self, Result, ℤ,
  is_negative, pos_part, List, ◌∷◌, ◌++◌, append-nil, append_assoc,
}
use mathlib.Core.List.{Perm}
use mathlib.Core.List.Perm
use event_loop.Http.Request.{Bytes}
use event_loop.EventLoopThreadPool
use event_loop.EventLoopThreadPool.{EventLoopThreadPool, get_next_loop}
use event_loop.SocketsOps.{Errno, Accepted, accepted, refused}
use event_loop.Acceptor.{Acceptor, new_acceptor, listen, handle_read, end_acceptor, close_all}
use event_loop.Channel.{disable_all}
use event_loop.Acceptor.Descriptors.{
  IsAccounted, Step-IsAccounted, refused-passes, accepted-passes, reads, ends,
}
use event_loop.TcpServer.{
  Connection, TcpServer, lookup, new_server, start, admit, on_accept, remove_connection_in_loop,
  set_thread_num, value, destroy_all, end_server,
}
use event_loop.TcpServer.Names.{max_id}
use event_loop.Connector.Sockets
use event_loop.TcpServer.Serving.{
  IsServing, socket_of, new_connection-IsServing, remove_connection-IsServing,
}

-- fcntl(2) and printf(3), as far as `errno` goes.
module _ {ℓ} {L : Type ℓ} (fcntl : Option ℕ → Errno → Errno) (print : Errno → Errno) where
  -- What may happen to a server, with fewer than 2 ^ 31 connections made.
  pub data Step (s d : TcpServer L) : Type ℓ where
    sets_threads : (n : ℤ) → set_thread_num s n ≡ ok d → Step s d
    starts :
        (start_loop : Bytes → L) (has_callback : Bool)
        → start start_loop has_callback s ≡ ok d
        → Step s d
    accepts :
        (before : Errno) (first second : Accepted) (reopened : Option ℕ)
        → s.next_conn_id < max_id
        → on_accept fcntl print s before first second reopened ≡ ok d
        → Step s d
    removes :
        (c : Connection L)
        → s.next_conn_id ≤ max_id
        → lookup c.conn_name s.connections ≡ some c
        → remove_connection_in_loop s c ≡ ok d
        → Step s d

  pub data Reach (s : TcpServer L) : TcpServer L → Type ℓ where
    here : Reach s s
    next : {d e : TcpServer L} → Reach s d → Step d e → Reach s e

  -- With another acceptor that passed on nothing new.
  moved-IsServing :
      (s : TcpServer L) (a : Acceptor) (pool : EventLoopThreadPool L) (started : Bool)
      → IsServing s
      → IsAccounted a
      → a.passed ≡ s.acceptor.passed
      → a.has_callback ≡ s.acceptor.has_callback
      → IsServing (record s { acceptor = a; pool = pool; started = started })
  moved-IsServing s a pool started v w p b = record {
    kept = v.kept;
    taken = v.taken ∙ ap reverse (sym p);
    descriptors = w;
    numbered = v.numbered;
    table = v.table;
    short = v.short;
    called_back = b ∙ v.called_back;
  }

  start-IsServing :
      (start_loop : Bytes → L) (has_callback : Bool) (s : TcpServer L) {d : TcpServer L}
      → start start_loop has_callback s ≡ ok d
      → IsServing s
      → IsServing d
  unfolding start listen
  start-IsServing start_loop has_callback s {d} h v = elim (Bool-cases s.started) [
    | inl y ↦ subst IsServing (ground (arith, h, y)) v
    | inr y ↦ elim (Result-cases (EventLoopThreadPool.start start_loop has_callback s.pool)) [
      | inr (f, e) ↦ absurd (ground (arith, e, h, y))
      | inl (p, e) ↦
          subst IsServing (ground (arith, e, h, y))
            (moved-IsServing s (listen s.acceptor) p true v v.descriptors refl refl)
    ]
  ]

  on_accept-IsServing :
      (s : TcpServer L) (before : Errno) (first second : Accepted) (reopened : Option ℕ)
      {d : TcpServer L}
      → s.next_conn_id < max_id
      → on_accept fcntl print s before first second reopened ≡ ok d
      → IsServing s
      → IsServing d
  unfolding on_accept admit
  on_accept-IsServing s before (refused e) second reopened {d} few h v =
      let a = handle_read fcntl print s.acceptor before (refused e) second reopened in
      let w =
        Step-IsAccounted fcntl print (reads before (refused e) second reopened refl)
          v.descriptors in
      let (p, b) = refused-passes fcntl print s.acceptor before e second reopened in
      subst IsServing (ground (arith, h, p, newest-none s.acceptor.passed))
        (moved-IsServing s a s.pool s.started v w p b)
  on_accept-IsServing s before (accepted fd) second reopened {d} few h v =
      let a = handle_read fcntl print s.acceptor before (accepted fd) second reopened in
      let w =
        Step-IsAccounted fcntl print (reads before (accepted fd) second reopened refl)
          v.descriptors in
      let (p, b) = accepted-passes fcntl print s.acceptor before fd second reopened v.called_back in
      new_connection-IsServing s a fd v few w p b
        (ground (arith, h, p, ==_self (length s.acceptor.passed)))

  Step-IsServing : {s d : TcpServer L} → Step s d → IsServing s → IsServing d
  unfolding set_thread_num
  Step-IsServing {s} (sets_threads n h) v = elim (Bool-cases (is_negative n)) [
    | inl y ↦ absurd (ground (arith, h, y))
    | inr y ↦ subst IsServing (ground (arith, h, y)) (
        moved-IsServing s s.acceptor (EventLoopThreadPool.set_thread_num s.pool (pos_part n))
          s.started v v.descriptors refl refl)
  ]
  Step-IsServing {s} (starts start_loop has_callback h) v =
      start-IsServing start_loop has_callback s h v
  Step-IsServing {s} (accepts before first second reopened few h) v =
      on_accept-IsServing s before first second reopened few h v
  Step-IsServing {s} (removes c few found h) v = remove_connection-IsServing s c v few found h

  Reach-IsServing : {s d : TcpServer L} → Reach s d → IsServing s → IsServing d
  Reach-IsServing here v = v
  Reach-IsServing (next r e) v = Step-IsServing e (Reach-IsServing r v)

  new_server-IsServing :
      (loop : L) (ip_port name : Bytes) (sockfd idle : ℕ)
      → length ip_port ≤ 50
      → IsServing (new_server loop ip_port name sockfd idle)
  unfolding new_server new_acceptor
  new_server-IsServing loop ip_port name sockfd idle short = record {
    kept = Perm.refl [];
    taken = refl;
    descriptors = λ n. omega arith;
    numbered = refl;
    table = tt;
    short = short;
    called_back = refl;
  }

  destroy_all-eq :
      (run : Connection L → Result (Unit {0}))
      → ((c : Connection L) → run c ≡ ok tt)
      → (es : List (Bytes × Connection L)) (done : List (Connection L))
      → destroy_all run es done ≡ ok (done ++ map value es)
  unfolding destroy_all
  destroy_all-eq run fine [] done = ap ok (sym (append-nil done))
  destroy_all-eq run fine (e ∷ es) done = rw (fine e.1) (
      destroy_all-eq run fine es (done ++ e.1 ∷ [])
      ∙ ap ok (append_assoc done (e.1 ∷ []) (map value es)))

  -- Whatever happens to a new server whose address has at most fifty characters, while fewer than
  -- 2 ^ 31 connections are made, only connections in the table are removed, and no assertion fails: if
  -- the calls of connectDestroyed in it fail none, the destructor fails no assertion. Then the connections handed over to be destroyed are those that were
  -- established, each as often; their sockets are those that the acceptor passed on, in order; and each
  -- descriptor was opened by the acceptor, its spare one included, as often as it was closed or passed
  -- on.
  pub end_server-perm :
      (loop : L) (ip_port name : Bytes) (sockfd idle : ℕ)
      → length ip_port ≤ 50
      → {s : TcpServer L} → Reach (new_server loop ip_port name sockfd idle) s
      → (run : Connection L → Result (Unit {0})) → ((c : Connection L) → run c ≡ ok tt)
      → (d : TcpServer L) × (end_server run s ≡ ok d)
        × (d.connections ≡ [])
        × Perm d.established d.destroyed
        × (map socket_of d.established ≡ reverse d.acceptor.passed)
        × ((n : ℕ)
            → Sockets.count n d.acceptor.opened
              ≡ Sockets.count n d.acceptor.closed + Sockets.count n d.acceptor.passed)
  unfolding end_server end_acceptor
  end_server-perm loop ip_port name sockfd idle short {s} r run fine =
      let v = Reach-IsServing r (new_server-IsServing loop ip_port name sockfd idle short) in
      (
        record s {
          connections = [];
          destroyed = s.destroyed ++ map value s.connections;
          acceptor = record s.acceptor {
            channel = record (disable_all s.acceptor.channel) { added_to_loop = false };
            closed = close_all s.acceptor.idle_fd s.acceptor.closed;
            idle_fd = none;
          };
        },
        rw (destroy_all-eq run fine s.connections s.destroyed) refl,
        refl,
        v.kept,
        v.taken,
        λ n. omega (arith, Step-IsAccounted fcntl print (ends refl) v.descriptors n),
      )
