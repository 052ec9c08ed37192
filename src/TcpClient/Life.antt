-- ===== src/TcpClient/Life.antt =====
-- TcpClient.cpp: a client over time.
use event_loop.Prelude.{
  ℕ, ◌≡◌, refl, sym, subst, inl, inr, Bool, true, false, some, List, ◌∷◌, ok, arith, Result-cases,
}
use event_loop.Http.Request.{Bytes}
use event_loop.Connector
use event_loop.Connector.{
  State, connected, disconnected, Errno, Task, Connector, new_connector, start_in_loop,
  handle_error, handle_write, run_task, restart,
}
use event_loop.Connector.Life
use event_loop.TcpConnection.Machine.{Event}
use event_loop.TcpClient.Attempts.{
  start_in_loop-Keeps, start-Keeps, handle_error-Keeps, run_task-Keeps,
}
use event_loop.TcpClient.Events.{handle_writable-IsSingle, on_event-IsSingle, destroy_next-total}
use event_loop.TcpClient.Single.{IsSingle, moved-IsSingle, replaced-IsSingle, current-shut_down}
use event_loop.TcpClient.{
  Connection, TcpClient, new_client, enable_retry, connect, disconnect, stop, shut_down,
  handle_writable, on_event, destroy_next,
}

-- What may happen to a client and its connection, in the loop's thread, or a call of `start` from another. A
-- connection that is closed and still held by its user is no longer called.
pub data Step (c d : TcpClient) : Type 0 where
  enables : d ≡ enable_retry c → Step c d
  connects :
      (in_loop_thread : Bool) (sockfd : ℕ) (errno : Errno)
      → connect in_loop_thread c sockfd errno ≡ ok d
      → Step c d
  disconnects : d ≡ disconnect c → Step c d
  stops : d ≡ stop c → Step c d
  retries :
      (sockfd : ℕ) (errno : Errno) (k : Connector)
      → start_in_loop c.connector sockfd errno ≡ ok k
      → d ≡ record c { connector = k }
      → Step c d
  fails :
      (k : Connector) → handle_error c.connector ≡ ok k → d ≡ record c { connector = k } → Step c d
  runs :
      (t : Task) (ts : List Task) (sockfd : ℕ) (errno : Errno) (k : Connector)
      → c.connector.tasks ≡ t ∷ ts
      → run_task (record c.connector { tasks = ts }) t sockfd errno ≡ ok k
      → d ≡ record c { connector = k }
      → Step c d
  writable :
      (peer : Bytes) (error : ℕ) (self_connect : Bool)
      → handle_writable c peer error self_connect ≡ ok d
      → Step c d
  event :
      (a : Connection) (e : Event) (sockfd : ℕ) (errno : Errno)
      → c.connection ≡ some a
      → on_event c a e sockfd errno ≡ ok d
      → Step c d
  destroys : destroy_next c ≡ ok d → Step c d

pub data Reach (c : TcpClient) : TcpClient → Type 0 where
  here : Reach c c
  next : {d e : TcpClient} → Reach c d → Step d e → Reach c e

Step-IsSingle : {c d : TcpClient} → Step c d → IsSingle c → IsSingle d
unfolding enable_retry connect disconnect stop Connector.stop
Step-IsSingle {c} (enables e) v = subst IsSingle (sym e) (record {
  reached = v.reached;
  held = v.held;
  accounted = v.accounted;
  numbered = v.numbered;
  shut = v.shut;
  gone = v.gone;
})
Step-IsSingle {c} (connects t n errno h) v =
    elim (Result-cases (Connector.start t c.connector n errno)) [
      | inr (f, e) ↦ absurd (ground (arith, e, h))
      | inl (k, e) ↦ subst IsSingle (ground (arith, e, h)) (
          moved-IsSingle c k c.retry true v (Connector.Life.starts t n errno e)
            (start-Keeps t c.connector n errno e))
    ]
Step-IsSingle {c} (disconnects e) v =
    subst IsSingle (sym e)
      (replaced-IsSingle c (shut_down c.connection) false v (current-shut_down c.connection))
Step-IsSingle {c} (stops e) v = subst IsSingle (sym e) (
    moved-IsSingle c (Connector.stop c.connector) c.retry false v (Connector.Life.stops refl)
      (λ up. up, refl))
Step-IsSingle {c} (retries n errno k h e) v = subst IsSingle (sym e) (
    moved-IsSingle c k c.retry c.wanted v (Connector.Life.retries n errno h)
      (start_in_loop-Keeps c.connector n errno h))
Step-IsSingle {c} (fails k h e) v = subst IsSingle (sym e) (
    moved-IsSingle c k c.retry c.wanted v (Connector.Life.errors h)
      (handle_error-Keeps c.connector h))
Step-IsSingle {c} (runs t ts n errno k q h e) v = subst IsSingle (sym e) (
    moved-IsSingle c k c.retry c.wanted v (Connector.Life.runs t ts n errno q h)
      (run_task-Keeps (record c.connector { tasks = ts }) t n errno h))
Step-IsSingle {c} (writable peer error self_connect h) v =
    handle_writable-IsSingle c peer error self_connect h v
Step-IsSingle {c} (event a e n errno q h) v = on_event-IsSingle c a e n errno q h v
Step-IsSingle {c} (destroys h) v =
    let (d, e, w) = destroy_next-total c v in subst IsSingle (ground (arith, e, h)) w

-- Whatever happens to a new client and its present connection, in any order, where no assertion fails and
-- nothing but its destruction is called on a connection that it has given up: the
-- connector was only restarted when connected. A connection is there only while the connector is
-- connected. The sockets that the connector passed on are, in order and each once, those of the
-- connections that were destroyed, of those to be destroyed, and of the one that is there; the next
-- number is one more than their count. Those to be destroyed are disconnected and watched for nothing,
-- and the channels of those that were are out of the loop.
pub IsSingle-reached :
    {name : Bytes} {wants_write_complete : Bool} {c : TcpClient}
    → Reach (new_client name wants_write_complete) c
    → IsSingle c
IsSingle-reached here = record {
  reached = Connector.Life.here;
  held = tt;
  accounted = refl;
  numbered = refl;
  shut = tt;
  gone = tt;
}
IsSingle-reached (next r s) = Step-IsSingle s (IsSingle-reached r)
