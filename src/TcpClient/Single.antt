-- ===== src/TcpClient/Single.antt =====
-- TcpClient.cpp: a client has one connection at a time, and what keeps it so.
use event_loop.Prelude.{
  ℕ, suc, ◌+◌, ◌≡◌, refl, sym, ap, subst, ◌∙◌, inl, inr, Bool, false, Option, none, some, List, [],
  ◌∷◌, ◌++◌, map, reverse, length, ok, arith, Result-cases,
}
use event_loop.Http.Request.{Bytes}
use event_loop.Connector
use event_loop.Connector.{
  State, connected, disconnected, Errno, Task, Connector, new_connector, start_in_loop,
  handle_error, handle_write, run_task, restart,
}
use event_loop.Connector.Life
use event_loop.TcpConnection
use event_loop.TcpConnection.State.{TcpConnection}
use event_loop.TcpConnection.Close.{connect_established}
use event_loop.TcpConnection.Machine.{new_tcp_connection}
use event_loop.TcpClient.Calls.{IsShut}
use event_loop.TcpClient.Attempts.{Keeps}
use event_loop.TcpClient.{Connection, TcpClient, new_connection, name_of, shut_down}

-- A client with a connection has a connector that is connected.
abbrev pub IsHeldAt : Option Connection → State → Type 0
IsHeldAt none s = Unit {0}
IsHeldAt (some a) s = s ≡ connected

abbrev pub AllShut : List Connection → Type 0
AllShut [] = Unit {0}
AllShut (a ∷ rest) = IsShut a.conn × AllShut rest

abbrev pub AllGone : List Connection → Type 0
AllGone [] = Unit {0}
AllGone (a ∷ rest) =
    (a.conn.state ≡ TcpConnection.State.disconnected)
    × (a.conn.channel.added_to_loop ≡ false)
    × AllGone rest

abbrev pub current : Option Connection → List ℕ
current none = []
current (some a) = a.socket ∷ []

abbrev pub socket_of : Connection → ℕ
socket_of a = a.socket

-- The sockets of the connections made, in order.
abbrev pub sockets : TcpClient → List ℕ
sockets c = map socket_of (c.destroyed ++ c.destroying) ++ current c.connection

pub record IsSingle (c : TcpClient) : Type 0 where
  pub reached : Connector.Life.Reach new_connector c.connector
  pub held : IsHeldAt c.connection c.connector.state
  pub accounted : sockets c ≡ reverse c.connector.given
  pub numbered : c.next_conn_id ≡ suc (length c.connector.given)
  pub shut : AllShut c.destroying
  pub gone : AllGone c.destroyed

IsHeldAt-Keeps :
    (o : Option Connection) (s t : State)
    → (s ≡ connected → t ≡ connected)
    → IsHeldAt o s
    → IsHeldAt o t
IsHeldAt-Keeps none s t k h = tt
IsHeldAt-Keeps (some a) s t k h = k h

-- A step of the connector alone, with a change of what is wanted.
pub moved-IsSingle :
    (c : TcpClient) (k : Connector) (retry wanted : Bool)
    → IsSingle c
    → Connector.Life.Step c.connector k
    → Keeps c.connector k
    → IsSingle (record c { retry = retry; wanted = wanted; connector = k })
moved-IsSingle c k retry wanted v s (up, same) = record {
  reached = Connector.Life.next v.reached s;
  held = IsHeldAt-Keeps c.connection c.connector.state k.state up v.held;
  accounted = v.accounted ∙ ap reverse (sym same);
  numbered = v.numbered ∙ ap (λ (xs : List ℕ). suc (length xs)) (sym same);
  shut = v.shut;
  gone = v.gone;
}

IsHeldAt-same :
    (p o : Option Connection) (s : State) → current o ≡ current p → IsHeldAt p s → IsHeldAt o s
IsHeldAt-same p none s e h = tt
IsHeldAt-same none (some a) s e h = cc
IsHeldAt-same (some b) (some a) s e h = h

-- A change of the connection's state.
pub replaced-IsSingle :
    (c : TcpClient) (o : Option Connection) (wanted : Bool)
    → IsSingle c
    → current o ≡ current c.connection
    → IsSingle (record c { wanted = wanted; connection = o })
replaced-IsSingle c o wanted v e = record {
  reached = v.reached;
  held = IsHeldAt-same c.connection o c.connector.state e v.held;
  accounted =
      ap (λ (xs : List ℕ). map socket_of (c.destroyed ++ c.destroying) ++ xs) e ∙ v.accounted;
  numbered = v.numbered;
  shut = v.shut;
  gone = v.gone;
}

pub current-shut_down : (o : Option Connection) → current (shut_down o) ≡ current o
current-shut_down none = refl
current-shut_down (some a) = refl

pub AllShut-append :
    (xs : List Connection) (a : Connection) → AllShut xs → IsShut a.conn → AllShut (xs ++ a ∷ [])
AllShut-append [] a h k = (k, tt)
AllShut-append (x ∷ xs) a (h, hs) k = (h, AllShut-append xs a hs k)

abbrev pub IsGone : Connection → Type 0
IsGone a =
    (a.conn.state ≡ TcpConnection.State.disconnected) × (a.conn.channel.added_to_loop ≡ false)

pub AllGone-append :
    (xs : List Connection) (a : Connection) → AllGone xs → IsGone a → AllGone (xs ++ a ∷ [])
AllGone-append [] a h k = (k.0, k.1, tt)
AllGone-append (x ∷ xs) a (h, k, hs) g = (h, k, AllGone-append xs a hs g)

-- The new connection has the number and the socket.
pub new_connection-eq :
    (c : TcpClient) (peer : Bytes) (sockfd : ℕ) {d : TcpClient}
    → new_connection c peer sockfd ≡ ok d
    → (a : Connection) × (d ≡ record c { next_conn_id = c.next_conn_id + 1; connection = some a })
      × (a.socket ≡ sockfd)
unfolding new_connection
new_connection-eq c peer sockfd {d} h =
    elim (Result-cases (new_tcp_connection sockfd c.wants_write_complete)) [
      | inr (f, e) ↦ absurd (ground (arith, e, h))
      | inl (fresh, e) ↦ elim (Result-cases (connect_established fresh)) [
        | inr (f, e') ↦ absurd (ground (arith, e, e', h))
        | inl (conn, e') ↦ (
          record {
            number = c.next_conn_id;
            conn_name = name_of c.name peer c.next_conn_id;
            socket = sockfd;
            conn = conn;
          },
          ground (arith, e, e', h),
          refl,
        )
      ]
    ]

pub restarted-IsSingle :
    (c : TcpClient) (k : Connector)
    → IsSingle c
    → c.connection ≡ none
    → Connector.Life.Step c.connector k
    → k.given ≡ c.connector.given
    → IsSingle (record c { connector = k })
restarted-IsSingle c k v n s same = record {
  reached = Connector.Life.next v.reached s;
  held = subst (λ o. IsHeldAt o k.state) (sym n) tt;
  accounted = v.accounted ∙ ap reverse (sym same);
  numbered = v.numbered ∙ ap (λ (xs : List ℕ). suc (length xs)) (sym same);
  shut = v.shut;
  gone = v.gone;
}
