-- ===== src/TcpConnection/Closing.antt =====
-- TcpConnection.cpp: the life of a connection.
use event_loop.Prelude.{
  ℕ, ◌≡◌, ◌≢◌, ◌⊎◌, inl, inr, refl, ap, ◌∙◌, true, false, List, [], ◌∷◌, ◌++◌, append_assoc, ok,
  err, assertion_failed, arith,
}
use event_loop.Buffer.ReadFd.{Readv}
use event_loop.Channel
use event_loop.Channel.{Channel}
use event_loop.TcpConnection.State.{
  State, disconnected, connecting, connected, disconnecting, TcpConnection, Write, wrote, refused,
  would_block, broken, other_error, Call, connection_callback, close_callback, close_in_loop,
}
use event_loop.TcpConnection.Send.{send, attempt, direct_write, buffer_rest, note_high_water}
use event_loop.TcpConnection.Close.{
  shutdown, force_close, force_close_with_delay, force_close_in_loop, handle_close,
  connect_established, connect_destroyed, start_read_in_loop,
}
use event_loop.TcpConnection.Events.{handle_read, handle_write}

-- A connection that is not yet open, or that is closed, is watched for nothing.
abbrev pub IsQuietAt : State → Channel → Type 0
IsQuietAt disconnected ch = (ch.reads ≡ false) × (ch.writes ≡ false)
IsQuietAt connecting ch = (ch.reads ≡ false) × (ch.writes ≡ false)
IsQuietAt connected ch = Unit {0}
IsQuietAt disconnecting ch = Unit {0}

abbrev pub IsQuiet : TcpConnection → Type 0
IsQuiet c = IsQuietAt c.state c.channel

-- What may happen to a connection. `startRead` looks at no state: here it is called while the connection is open.
pub data Step (c d : TcpConnection) : Type 0 where
  establishes : connect_established c ≡ ok d → Step c d
  sends : (bytes : List ℕ) (answer : Write) → send c bytes answer ≡ ok d → Step c d
  shuts_down : d ≡ shutdown c → Step c d
  forces_close : d ≡ force_close c → Step c d
  delays_close : d ≡ (force_close_with_delay c).0 → Step c d
  closes_in_loop : force_close_in_loop c ≡ ok d → Step c d
  reads : (answer : Readv) → handle_read c answer ≡ ok d → Step c d
  writes : (answer : Write) → handle_write c answer ≡ ok d → Step c d
  starts_read :
      (c.state ≡ connected) ⊎ (c.state ≡ disconnecting) → d ≡ start_read_in_loop c → Step c d
  destroys : connect_destroyed c ≡ ok d → Step c d

pub data Reach (c : TcpConnection) : TcpConnection → Type 0 where
  here : Reach c c
  next : {d e : TcpConnection} → Reach c d → Step d e → Reach c e

pub attempt-state :
    (c : TcpConnection) (bytes : List ℕ) (answer : Write)
    → (attempt c bytes answer).conn.state ≡ c.state
unfolding attempt direct_write
attempt-state c bytes (wrote n) = ground arith
attempt-state c bytes (refused would_block) = ground arith
attempt-state c bytes (refused broken) = ground arith
attempt-state c bytes (refused other_error) = ground arith

pub buffer_rest-state :
    (c : TcpConnection) (rest : List ℕ) {d : TcpConnection}
    → buffer_rest c rest ≡ ok d
    → d.state ≡ c.state
unfolding buffer_rest note_high_water
buffer_rest-state c rest e = ground arith

-- On a closed connection, `startRead` has the channel watched for reading again.
start_read_closed :
    (c : TcpConnection)
    → c.state ≡ disconnected
    → IsQuiet c
    → ((start_read_in_loop c).state ≡ disconnected) × ((start_read_in_loop c).channel.reads ≡ true)
unfolding start_read_in_loop Channel.is_reading Channel.enable_reading
start_read_closed c e q = ground (arith, e, q)

-- For an open connection, connected or shutting down, `forceCloseWithDelay` starts the timer, but the
-- `forceClose` that the timer calls does nothing.
pub force_close_with_delay_lem :
    (c : TcpConnection)
    → (c.state ≡ connected) ⊎ (c.state ≡ disconnecting)
    → ((force_close_with_delay c).1 ≡ true)
      × (force_close (force_close_with_delay c).0 ≡ (force_close_with_delay c).0)
unfolding force_close force_close_with_delay
force_close_with_delay_lem c (inl e) = rw e (refl, refl)
force_close_with_delay_lem c (inr e) = rw e (refl, refl)

-- The calls that closing makes.
abbrev pub farewell : List Call
farewell = connection_callback ∷ close_callback ∷ []

abbrev closed : TcpConnection → TcpConnection
closed c = record c {
  state = disconnected;
  channel = Channel.disable_all c.channel;
  calls = (c.calls ++ connection_callback ∷ []) ++ close_callback ∷ [];
}

handle_close_lem :
    (c : TcpConnection)
    → (c.state ≡ connected) ⊎ (c.state ≡ disconnecting)
    → handle_close c ≡ ok (closed c)
unfolding handle_close
handle_close_lem c (inl up) = rw up refl
handle_close_lem c (inr down) = rw down refl

-- An open connection is closed: disconnected, watched for nothing, with the two callbacks called. If
-- `forceClose` is called then, the functor that it queues in the loop closes it again, and calls both
-- callbacks again.
pub close_twice :
    (c : TcpConnection)
    → (c.state ≡ connected) ⊎ (c.state ≡ disconnecting)
    → (d e : TcpConnection) × (handle_close c ≡ ok d)
      × (d.state ≡ disconnected)
      × (Channel.is_none_event d.channel ≡ true)
      × (d.calls ≡ c.calls ++ farewell)
      × ((force_close d).queue ≡ d.queue ++ close_in_loop ∷ [])
      × (force_close_in_loop (force_close d) ≡ ok e)
      × (e.state ≡ disconnected)
      × (e.calls ≡ c.calls ++ (farewell ++ farewell))
unfolding handle_close force_close force_close_in_loop Channel.disable_all Channel.is_none_event
close_twice c h =
    let d = closed c in
    let e = closed (record d { queue = d.queue ++ close_in_loop ∷ [] }) in
    (
      d,
      e,
      handle_close_lem c h,
      refl,
      refl,
      append_assoc c.calls (connection_callback ∷ []) (close_callback ∷ []),
      refl,
      refl,
      refl,
      append_assoc (d.calls) (connection_callback ∷ []) (close_callback ∷ [])
          ∙ ap (λ x. x ++ farewell)
              (append_assoc c.calls (connection_callback ∷ []) (close_callback ∷ []))
          ∙ append_assoc c.calls farewell farewell,
    )

pub destroy_shut_lem :
    (c : TcpConnection)
    → (c.state ≡ disconnected) ⊎ (c.state ≡ connecting)
    → (c.channel.reads ≡ false) × (c.channel.writes ≡ false)
    → connect_destroyed c ≡ ok (record c { channel = record c.channel { added_to_loop = false } })
unfolding connect_destroyed Channel.remove
destroy_shut_lem c (inl e) (r, w) = rw (e, r, w) refl
destroy_shut_lem c (inr e) (r, w) = rw (e, r, w) refl

-- `connectDestroyed` on a connection that is not shutting down succeeds, if the connection is watched for
-- nothing unless it is open: the channel is then watched for nothing and is no longer in the loop, and
-- the connection is closed if it was open. On one that is shutting down and still reads, the assertion
-- in `remove` fails.
pub connect_destroyed_lem :
    (c : TcpConnection)
    → IsQuiet c
    → ((c.state ≢ disconnecting)
        → (d : TcpConnection) × (connect_destroyed c ≡ ok d)
          × (Channel.is_none_event d.channel ≡ true)
          × (d.channel.added_to_loop ≡ false)
          × (d.state ≢ connected))
      × (c.state ≡ disconnecting
          → c.channel.reads ≡ true
          → connect_destroyed c ≡ err assertion_failed)
unfolding connect_destroyed Channel.disable_all Channel.remove Channel.is_none_event
connect_destroyed_lem c q = at c.state q
  where
    at :
        (s : State)
        → IsQuietAt s c.channel
        → ((s ≢ disconnecting)
            → (d : TcpConnection) × (connect_destroyed (record c { state = s }) ≡ ok d)
              × (Channel.is_none_event d.channel ≡ true)
              × (d.channel.added_to_loop ≡ false)
              × (d.state ≢ connected))
          × (s ≡ disconnecting
              → c.channel.reads ≡ true
              → connect_destroyed (record c { state = s }) ≡ err assertion_failed)
    at disconnected (r, w) = (
      λ h. (
        _,
        destroy_shut_lem (record c { state = disconnected }) (inl refl) (r, w),
        rw (r, w) refl,
        refl,
        λ e. cc,
      ),
      λ e r. cc,
    )
    at connecting (r, w) = (
      λ h. (
        _,
        destroy_shut_lem (record c { state = connecting }) (inr refl) (r, w),
        rw (r, w) refl,
        refl,
        λ e. cc,
      ),
      λ e r. cc,
    )
    at connected q = (λ h. (_, refl, refl, refl, λ e. cc), λ e r. cc)
    at disconnecting q = (λ h. absurd (h refl), λ e r. rw r refl)
