-- ===== src/TcpClient/Reconnect.antt =====
-- TcpClient.cpp: what happens when the connection is closed.
use event_loop.Prelude.{
  ℕ, ◌≡◌, refl, subst, inl, inr, true, false, ◌&&◌, Option, none, some, [], ◌∷◌, ◌++◌, ok, err,
  assertion_failed, arith, Bool-cases, ==_self,
}
use event_loop.Connector
use event_loop.Connector.{State, connected, Errno, Connector, restart, start_in_loop}
use event_loop.Connector.Life.{IsSound-reached}
use event_loop.Connector.Sockets.{IsSound, IsChannelOf, resets}
use event_loop.Channel.{Channel}
use event_loop.TcpClient.Attempts.{restart-total, start_in_loop-fails}
use event_loop.TcpClient.Single.{IsSingle, IsHeldAt}
use event_loop.TcpClient.{Connection, TcpClient, connect, remove_connection}

connected_channel : (o : Option Channel) (n : ℕ) → IsChannelOf connected o n → n ≡ 0 → o ≡ none
connected_channel none n h e = refl
connected_channel (some ch) n h e = absurd (ground arith)

-- The connector's channel is gone where no functor is to delete it.
channel_gone :
    (k : Connector) → IsSound k → k.state ≡ connected → resets k.tasks ≡ 0 → k.channel ≡ none
channel_gone k v e z =
    connected_channel k.channel (resets k.tasks)
      (subst (λ s. IsChannelOf s k.channel (resets k.tasks)) e v.channel_is) z

-- What is left when the connection `a` was removed.
pub record IsRemoved (c d : TcpClient) (a : Connection) (sockfd : ℕ) : Type 0 where
  pub unconnected : d.connection ≡ none
  pub queued : d.destroying ≡ c.destroying ++ a ∷ []
  pub tries_again : (c.retry && c.wanted) ≡ true → d.connector.opened ≡ sockfd ∷ c.connector.opened
  pub stays : (c.retry && c.wanted) ≡ false → d.connector ≡ c.connector
  pub cannot_connect :
      (c.retry && c.wanted) ≡ false
      → (n : ℕ) (e : Errno) → connect true d n e ≡ err assertion_failed

-- Of a client where the invariant holds, whose connector's channel is not still to be deleted: when its
-- connection is closed, removeConnection fails no assertion, whatever connect(2) answers. The client has
-- no connection, and the destroying of the old one is queued. If it is to retry and was not stopped, a new
-- socket is made; otherwise the connector stays as it was, and a later connect in the loop fails an
-- assertion.
pub remove_connection-IsRemoved :
    (c : TcpClient) (a : Connection) (sockfd : ℕ) (errno : Errno)
    → IsSingle c
    → c.connection ≡ some a
    → resets c.connector.tasks ≡ 0
    → (d : TcpClient) × (remove_connection c a sockfd errno ≡ ok d) × IsRemoved c d a sockfd
unfolding remove_connection connect Connector.start
remove_connection-IsRemoved c a sockfd errno v e z =
    let up = subst (λ o. IsHeldAt o c.connector.state) e v.held in
    elim (Bool-cases (c.retry && c.wanted)) [
      | inl on ↦
          let (k, r, o) =
            restart-total c.connector sockfd errno
              (channel_gone c.connector (IsSound-reached v.reached) up z) in
          (
            record c { connection = none; destroying = c.destroying ++ a ∷ []; connector = k },
            rw (e, ==_self a.number, on, r) refl,
            record {
              unconnected = refl;
              queued = refl;
              tries_again = λ h. o;
              stays = λ h. cc;
              cannot_connect = λ h n x. cc;
            },
          )
      | inr off ↦ (
        record c { connection = none; destroying = c.destroying ++ a ∷ [] },
        rw (e, ==_self a.number, off) refl,
        record {
          unconnected = refl;
          queued = refl;
          tries_again = λ h. cc;
          stays = λ h. refl;
          cannot_connect = λ h n x.
              ground (arith, start_in_loop-fails (record c.connector { wanted = true }) n x up);
        },
      )
    ]
