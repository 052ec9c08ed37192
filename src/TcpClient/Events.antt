-- ===== src/TcpClient/Events.antt =====
-- TcpClient.cpp: the connection is made, meets events, is removed and destroyed; each keeps the invariant.
use event_loop.Prelude.{
  newest-none, ℕ, ◌+◌, ◌≡◌, ◌≢◌, refl, sym, ap, subst, ◌∙◌, ◌⊎◌, inl, inr, Bool, false, ◌&&◌,
  Option, none, some, List, [], ◌∷◌, ◌++◌, map, reverse, length, append_assoc, append-nil, ok,
  arith, Bool-cases, Result-cases, ==_self,
}
use mathlib.Core.List.{map-append, reverse-cons}
use event_loop.Http.Request.{Bytes}
use event_loop.Connector
use event_loop.Connector.{
  State, connected, disconnected, Errno, Task, Connector, new_connector, start_in_loop,
  handle_error, handle_write, run_task, restart,
}
use event_loop.Connector.Life
use event_loop.TcpConnection.State.{TcpConnection}
use event_loop.TcpConnection.Closing.{destroy_shut_lem}
use event_loop.TcpConnection.Machine.{Event, handle, close_calls}
use event_loop.TcpClient.Calls.{IsShut, handle-Called}
use event_loop.TcpClient.Attempts.{restart-given, handle_write-Passes}
use event_loop.TcpClient.Single.{
  IsSingle, IsHeldAt, AllShut, current, sockets, socket_of, moved-IsSingle, replaced-IsSingle,
  AllShut-append, AllGone-append, new_connection-eq, restarted-IsSingle,
}
use event_loop.TcpClient.{
  Connection, TcpClient, deliver, handle_writable, remove_connection, on_event, destroy_next,
}

none_held : (o : Option Connection) (s : State) → IsHeldAt o s → s ≢ connected → o ≡ none
none_held none s h n = refl
none_held (some a) s h n = absurd (n h)

-- A connection that was just made.
made-IsSingle :
    (c : TcpClient) (k : Connector) (a : Connection)
    → IsSingle c
    → Connector.Life.Step c.connector k
    → c.connection ≡ none
    → k.given ≡ a.socket ∷ c.connector.given
    → k.state ≡ connected
    → IsSingle (record c { connector = k; next_conn_id = c.next_conn_id + 1; connection = some a })
made-IsSingle c k a v s n g up = record {
  reached = Connector.Life.next v.reached s;
  held = up;
  accounted =
      ap (λ (xs : List ℕ). xs ++ a.socket ∷ [])
        (sym (append-nil (map socket_of (c.destroyed ++ c.destroying)))
          ∙ sym (ap (λ o. map socket_of (c.destroyed ++ c.destroying) ++ current o) n)
          ∙ v.accounted)
      ∙ sym (reverse-cons a.socket c.connector.given)
      ∙ ap reverse (sym g);
  numbered = ground (arith, v.numbered, g);
  shut = v.shut;
  gone = v.gone;
}

pub handle_writable-IsSingle :
    (c : TcpClient) (peer : Bytes) (error : ℕ) (self_connect : Bool) {d : TcpClient}
    → handle_writable c peer error self_connect ≡ ok d
    → IsSingle c
    → IsSingle d
unfolding handle_writable deliver
handle_writable-IsSingle c peer error self_connect {d} h v =
    elim (Result-cases (handle_write c.connector error self_connect)) [
      | inr (f, e) ↦ absurd (ground (arith, e, h))
      | inl (k, e) ↦
          let (off, w) = handle_write-Passes c.connector error self_connect e in
          let s = Connector.Life.writes error self_connect e in
          elim w [
            | inl same ↦
                subst IsSingle (ground (arith, e, h, same, newest-none c.connector.given))
                  (moved-IsSingle c k c.retry c.wanted v s (λ up. absurd (off up), same))
            | inr (x, g, up) ↦
                let n = none_held c.connection c.connector.state v.held off in
                let made =
                  new_connection-eq (record c { connector = k }) peer x {d = d}
                    (ground (arith, e, h, g, ==_self (length c.connector.given))) in
                subst IsSingle (sym made.1) (
                  made-IsSingle c k made.0 v s n
                    (g ∙ ap (λ (y : ℕ). y ∷ c.connector.given) (sym made.2)) up)
          ]
    ]

-- The client without the connection, which is to be destroyed.
removed : TcpClient → Connection → TcpClient
removed c a = record c { connection = none; destroying = c.destroying ++ a ∷ [] }

removed-IsSingle :
    (c : TcpClient) (a : Connection)
    → c.connection ≡ some a
    → IsShut a.conn
    → IsSingle c
    → IsSingle (removed c a)
unfolding removed
removed-IsSingle c a e k v = record {
  reached = v.reached;
  held = tt;
  accounted =
      append-nil (map socket_of (c.destroyed ++ (c.destroying ++ a ∷ [])))
      ∙ ap (map socket_of) (sym (append_assoc c.destroyed c.destroying (a ∷ [])))
      ∙ map-append socket_of (c.destroyed ++ c.destroying) (a ∷ [])
      ∙ subst
          (λ o.
            map socket_of (c.destroyed ++ c.destroying) ++ current o ≡ reverse c.connector.given)
          e v.accounted;
  numbered = v.numbered;
  shut = AllShut-append c.destroying a v.shut k;
  gone = v.gone;
}

remove_connection-IsSingle :
    (c : TcpClient) (a : Connection) (sockfd : ℕ) (errno : Errno) {d : TcpClient}
    → remove_connection c a sockfd errno ≡ ok d
    → c.connection ≡ some a
    → IsShut a.conn
    → IsSingle c
    → IsSingle d
unfolding remove_connection removed
remove_connection-IsSingle c a sockfd errno {d} h e k v =
    let w = removed-IsSingle c a e k v in
    let up = subst (λ o. IsHeldAt o c.connector.state) e v.held in
    elim (Bool-cases (c.retry && c.wanted)) [
      | inr off ↦ subst IsSingle (ground (arith, h, e, off, ==_self a.number)) w
      | inl on ↦ elim (Result-cases (restart c.connector sockfd errno)) [
        | inr (f, x) ↦ absurd (ground (arith, h, e, on, x, ==_self a.number))
        | inl (m, x) ↦ subst IsSingle (ground (arith, h, e, on, x, ==_self a.number)) (
            restarted-IsSingle (removed c a) m w refl (Connector.Life.restarts sockfd errno up x)
              (restart-given c.connector sockfd errno x))
      ]
    ]

pub on_event-IsSingle :
    (c : TcpClient) (a : Connection) (e : Event) (sockfd : ℕ) (errno : Errno) {d : TcpClient}
    → c.connection ≡ some a
    → on_event c a e sockfd errno ≡ ok d
    → IsSingle c
    → IsSingle d
unfolding on_event
on_event-IsSingle c a e sockfd errno {d} n h v = elim (Result-cases (handle a.conn e)) [
  | inr (f, x) ↦ absurd (ground (arith, h, x))
  | inl (u, x) ↦
      let b : Connection = record a { conn = u } in
      let w = replaced-IsSingle c (some b) c.wanted v (ap current (sym n)) in
      elim (handle-Called a.conn e x) [
        | inl same ↦
            subst IsSingle (ground (arith, h, x, same, ==_self (close_calls a.conn.calls))) w
        | inr (more, k) ↦
            remove_connection-IsSingle (record c { connection = some b }) b sockfd errno {d = d}
              (ground (arith, h, x, more)) refl k w
      ]
]

-- connectDestroyed of a connection that is closed.
gone_of : TcpConnection → TcpConnection
gone_of u = record u { channel = record u.channel { added_to_loop = false } }

-- The first of the connections that are to be destroyed is.
destroyed_first : TcpClient → Connection → List Connection → TcpClient
destroyed_first c a rest = record c {
  destroying = rest;
  destroyed = c.destroyed ++ record a { conn = gone_of a.conn } ∷ [];
}

destroyed_first-IsSingle :
    (c : TcpClient) (a : Connection) (rest : List Connection)
    → c.destroying ≡ a ∷ rest
    → IsSingle c
    → IsSingle (destroyed_first c a rest)
unfolding destroyed_first gone_of
destroyed_first-IsSingle c a rest e v =
    let (s, all) = subst AllShut e v.shut in
    record {
      reached = v.reached;
      held = v.held;
      accounted =
          ap (λ (xs : List Connection). map socket_of xs ++ current c.connection)
            (append_assoc c.destroyed _ rest)
          ∙ same
          ∙ v.accounted;
      numbered = v.numbered;
      shut = all;
      gone = AllGone-append c.destroyed (record a { conn = gone_of a.conn }) v.gone (s.0, refl);
    }
  where
    same :
        map socket_of (c.destroyed ++ record a { conn = gone_of a.conn } ∷ rest)
          ++ current c.connection
        ≡ sockets c
    same =
        ap (λ (xs : List ℕ). xs ++ current c.connection)
          (map-append socket_of c.destroyed (record a { conn = gone_of a.conn } ∷ rest)
            ∙ sym (map-append socket_of c.destroyed (a ∷ rest))
            ∙ ap (λ (ds : List Connection). map socket_of (c.destroyed ++ ds)) (sym e))

List-cases :
    (xs : List Connection)
    → (xs ≡ []) ⊎ ((a : Connection) × (rest : List Connection) × (xs ≡ a ∷ rest))
List-cases [] = inl refl
List-cases (a ∷ rest) = inr (a, rest, refl)

-- The destroying of a connection fails no assertion.
pub destroy_next-total :
    (c : TcpClient) → IsSingle c → (d : TcpClient) × (destroy_next c ≡ ok d) × IsSingle d
unfolding destroy_next destroyed_first gone_of
destroy_next-total c v = elim (List-cases c.destroying) [
  | inl e ↦ (c, rw e refl, v)
  | inr (a, rest, e) ↦
      let (s, all) = subst AllShut e v.shut in
      (
        destroyed_first c a rest,
        rw (e, destroy_shut_lem a.conn (inl s.0) (s.1, s.2)) refl,
        destroyed_first-IsSingle c a rest e v,
      )
]
