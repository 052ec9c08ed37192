-- ===== src/Connector/Sockets.antt =====
-- Connector.cpp: the sockets and the channel of a connector, in each of its operations.
use event_loop.Prelude.{
  ℕ, suc, ◌+◌, ◌≡◌, refl, sym, ap, subst, ◌∙◌, ◌⊎◌, inl, inr, true, false, Option, none, some, List,
  [], ◌∷◌, ◌++◌, if◌then◌else◌, ◌==◌, Result, ok, ◌>>=◌, arith, Option-cases, Bool-cases,
}
use event_loop.Channel
use event_loop.Channel.{Channel, new_channel, enable_writing, disable_all}
use event_loop.Connector.{
  State, disconnected, connecting, connected, Errno, success, einprogress, eintr, eisconn, eagain,
  eaddrinuse, eaddrnotavail, econnrefused, enetunreach, eacces, eperm, eafnosupport, ealready,
  ebadf, efault, enotsock, unexpected, Task, start_task, stop_task, reset_task, Connector,
  socket_channel, connecting_on, dispatch, connect, start_in_loop, remove_and_reset_channel,
  stop_in_loop, complete, handle_error, retry,
}

-- How often a socket is noted.
abbrev pub count : ℕ → List ℕ → ℕ
count n [] = 0
count n (x ∷ xs) = (if n == x then 1 else 0) + count n xs

-- How many functors that delete the channel are queued.
abbrev pub resets : List Task → ℕ
resets [] = 0
resets (start_task ∷ ts) = resets ts
resets (stop_task ∷ ts) = resets ts
resets (reset_task ∷ ts) = suc (resets ts)

pub resets-append : (ts us : List Task) → resets (ts ++ us) ≡ resets ts + resets us
resets-append [] us = omega arith
resets-append (start_task ∷ ts) us = resets-append ts us
resets-append (stop_task ∷ ts) us = resets-append ts us
resets-append (reset_task ∷ ts) us = omega (arith, resets-append ts us)

-- The socket that a connector holds open: that of its channel, while it connects.
abbrev pub held : ℕ → State → Option Channel → ℕ
held n connecting (some ch) = if n == ch.fd then 1 else 0
held n connecting none = 0
held n disconnected ch = 0
held n connected ch = 0

-- A connector that connects has its channel in the loop, watched for writing; after that the channel is
-- out of the loop, until the functor deletes it that is queued for that.
abbrev pub IsChannelOf : State → Option Channel → ℕ → Type 0
IsChannelOf connecting (some ch) n = (ch.writes ≡ true) × ((ch.added_to_loop ≡ true) × (n ≡ 0))
IsChannelOf connecting none n = ⊥
IsChannelOf disconnected (some ch) n = (ch.writes ≡ false) × ((ch.added_to_loop ≡ false) × (n ≡ 1))
IsChannelOf connected (some ch) n = (ch.writes ≡ false) × ((ch.added_to_loop ≡ false) × (n ≡ 1))
IsChannelOf disconnected none n = n ≡ 0
IsChannelOf connected none n = n ≡ 0

pub record IsSound (c : Connector) : Type 0 where
  pub counted :
      (n : ℕ) → count n c.opened ≡ count n c.closed + count n c.given + held n c.state c.channel
  pub channel_is : IsChannelOf c.state c.channel (resets c.tasks)

-- A connector with one socket more that is open, and no channel in the loop.
pub record IsHolding (c : Connector) (sockfd : ℕ) : Type 0 where
  pub counted_held :
      (n : ℕ)
      → count n c.opened ≡ count n c.closed + count n c.given + (if n == sockfd then 1 else 0)
  pub channel_out : IsChannelOf disconnected c.channel (resets c.tasks)

pub retry-IsSound : (c : Connector) (sockfd : ℕ) → IsHolding c sockfd → IsSound (retry c sockfd)
unfolding retry
retry-IsSound c sockfd v = record {
  counted = λ n. let h = v.counted_held n in ground arith;
  channel_is = let h = v.channel_out in ground arith;
}

pub complete-IsSound :
    (c : Connector) (sockfd : ℕ) → IsHolding c sockfd → IsSound (complete c sockfd)
unfolding complete
complete-IsSound c sockfd v = record {
  counted = λ n. let h = v.counted_held n in ground arith;
  channel_is = let h = v.channel_out in ground arith;
}

connecting_on-IsSound :
    (c : Connector) (sockfd : ℕ)
    → IsHolding c sockfd
    → {d : Connector} → connecting_on c sockfd ≡ ok d
    → IsSound d
unfolding connecting_on socket_channel enable_writing new_channel
connecting_on-IsSound c sockfd v e = elim (Option-cases c.channel) [
  | inl g ↦ record {
    counted = λ n. let h = v.counted_held n in ground arith;
    channel_is = let h = v.channel_out in ground arith;
  }
  | inr (ch, g) ↦ absurd (ground arith)
]

rejected-IsSound :
    (c : Connector) (sockfd : ℕ)
    → IsHolding c sockfd
    → c.state ≡ disconnected
    → IsSound (record c { closed = sockfd ∷ c.closed })
rejected-IsSound c sockfd v e = record {
  counted = λ n. let h = v.counted_held n in ground arith;
  channel_is = let h = v.channel_out in ground arith;
}

opened-IsHolding :
    (c : Connector) (sockfd : ℕ)
    → IsSound c
    → c.state ≡ disconnected
    → IsHolding (record c { opened = sockfd ∷ c.opened }) sockfd
opened-IsHolding c sockfd v e = record {
  counted_held = λ n. let h = v.counted n in ground arith;
  channel_out = subst (λ s. IsChannelOf s c.channel (resets c.tasks)) e v.channel_is;
}

-- A value that is returned has what it was built with.
pub ok-IsSound : {c d : Connector} → IsSound c → Path (Result Connector) (ok c) (ok d) → IsSound d
ok-IsSound {c} v e = record {
  counted = λ n. let h = v.counted n in ground arith;
  channel_is = let h = v.channel_is in ground arith;
}

dispatch-IsSound :
    {c : Connector} {sockfd : ℕ} (errno : Errno)
    → IsHolding c sockfd
    → c.state ≡ disconnected
    → {d : Connector} → dispatch c sockfd errno ≡ ok d
    → IsSound d
unfolding dispatch
dispatch-IsSound success v e g = connecting_on-IsSound _ _ v g
dispatch-IsSound einprogress v e g = connecting_on-IsSound _ _ v g
dispatch-IsSound eintr v e g = connecting_on-IsSound _ _ v g
dispatch-IsSound eisconn v e g = connecting_on-IsSound _ _ v g
dispatch-IsSound eagain v e g = ok-IsSound (retry-IsSound _ _ v) g
dispatch-IsSound eaddrinuse v e g = ok-IsSound (retry-IsSound _ _ v) g
dispatch-IsSound eaddrnotavail v e g = ok-IsSound (retry-IsSound _ _ v) g
dispatch-IsSound econnrefused v e g = ok-IsSound (retry-IsSound _ _ v) g
dispatch-IsSound enetunreach v e g = ok-IsSound (retry-IsSound _ _ v) g
dispatch-IsSound eacces v e g = ok-IsSound (rejected-IsSound _ _ v e) g
dispatch-IsSound eperm v e g = ok-IsSound (rejected-IsSound _ _ v e) g
dispatch-IsSound eafnosupport v e g = ok-IsSound (rejected-IsSound _ _ v e) g
dispatch-IsSound ealready v e g = ok-IsSound (rejected-IsSound _ _ v e) g
dispatch-IsSound ebadf v e g = ok-IsSound (rejected-IsSound _ _ v e) g
dispatch-IsSound efault v e g = ok-IsSound (rejected-IsSound _ _ v e) g
dispatch-IsSound enotsock v e g = ok-IsSound (rejected-IsSound _ _ v e) g
dispatch-IsSound (unexpected n) v e g = ok-IsSound (rejected-IsSound _ _ v e) g

connect-IsSound :
    (c : Connector) (sockfd : ℕ) (errno : Errno)
    → IsSound c
    → c.state ≡ disconnected
    → {d : Connector} → connect c sockfd errno ≡ ok d
    → IsSound d
unfolding connect
connect-IsSound c sockfd errno v e g = dispatch-IsSound errno (opened-IsHolding c sockfd v e) e g

pub State-cases : (s : State) → (s ≡ disconnected) ⊎ ((s ≡ connecting) ⊎ (s ≡ connected))
State-cases disconnected = inl refl
State-cases connecting = inr (inl refl)
State-cases connected = inr (inr refl)

pub start_in_loop-IsSound :
    (c : Connector) (sockfd : ℕ) (errno : Errno)
    → IsSound c
    → {d : Connector} → start_in_loop c sockfd errno ≡ ok d
    → IsSound d
unfolding start_in_loop
start_in_loop-IsSound c sockfd errno v {d} g = elim (State-cases c.state) [
  | inl e ↦ elim (Bool-cases c.wanted) [
    | inl w ↦ connect-IsSound c sockfd errno v e (ground arith)
    | inr w ↦ ok-IsSound v (ground arith)
  ]
  | inr (inl e) ↦ absurd (ground arith)
  | inr (inr e) ↦ absurd (ground arith)
]

-- Taking the channel out of the loop of a connector that connects, which does not fail.
pub remove_and_reset_channel_lem :
    (c : Connector) (ch : Channel)
    → c.channel ≡ some ch
    → remove_and_reset_channel c
      ≡ ok (
        record c {
          channel = some (record ch { reads = false; writes = false; added_to_loop = false });
          tasks = c.tasks ++ reset_task ∷ [];
        },
        ch.fd,
      )
unfolding remove_and_reset_channel disable_all Channel.remove Channel.is_none_event
remove_and_reset_channel_lem c ch e = rw e

-- The channel of a connector that connects.
pub connecting-channel :
    (c : Connector)
    → IsSound c
    → c.state ≡ connecting
    → (ch : Channel) × ((c.channel ≡ some ch) × (resets c.tasks ≡ 0))
connecting-channel c v e = elim (Option-cases c.channel) [
  | inl n ↦ absurd (let h = v.channel_is in ground arith)
  | inr (ch, h) ↦ (ch, (h, (let k = v.channel_is in ground arith)))
]

-- What stays of such a connector holds the socket.
pub removed-IsHolding :
    (c : Connector) (ch ch' : Channel) (s : State)
    → IsSound c
    → c.state ≡ connecting
    → c.channel ≡ some ch
    → resets c.tasks ≡ 0
    → ch'.writes ≡ false
    → ch'.added_to_loop ≡ false
    → IsHolding
        (record c { state = s; channel = some ch'; tasks = c.tasks ++ reset_task ∷ [] })
        ch.fd
removed-IsHolding c ch ch' s v e h n w a = record {
  counted_held = λ m. let k = v.counted m in ground arith;
  channel_out = (w, (a, ground (arith, resets-append c.tasks (reset_task ∷ []))));
}

-- In a sound connector that connects, the channel leaves the loop and its socket is closed for another
-- attempt, or none.
retried-IsSound :
    (c : Connector) (s : State)
    → IsSound c
    → c.state ≡ connecting
    → {d : Connector}
    → (remove_and_reset_channel (record c { state = s }) >>= λ r. ok (retry r.0 r.1)) ≡ ok d
    → IsSound d
retried-IsSound c s v e {d} g =
    let (ch, (h, n)) = connecting-channel c v e in
    ok-IsSound (retry-IsSound _ _ (removed-IsHolding c ch _ s v e h n refl refl)) (
      sym (
        ap (λ r. r >>= λ r'. ok (retry r'.0 r'.1))
          (remove_and_reset_channel_lem (record c { state = s }) ch h))
      ∙ g)

pub stop_in_loop-IsSound :
    (c : Connector) → IsSound c → {d : Connector} → stop_in_loop c ≡ ok d → IsSound d
unfolding stop_in_loop
stop_in_loop-IsSound c v {d} g = elim (State-cases c.state) [
  | inl e ↦ ok-IsSound v (ground arith)
  | inr (inl e) ↦ retried-IsSound c disconnected v e (ground arith)
  | inr (inr e) ↦ ok-IsSound v (ground arith)
]

pub handle_error-IsSound :
    (c : Connector) → IsSound c → {d : Connector} → handle_error c ≡ ok d → IsSound d
unfolding handle_error
handle_error-IsSound c v {d} g = elim (State-cases c.state) [
  | inl e ↦ ok-IsSound v (ground arith)
  | inr (inl e) ↦ retried-IsSound c connecting v e (
      subst
        (λ s.
          (remove_and_reset_channel (record c { state = s }) >>= λ r. ok (retry r.0 r.1)) ≡ ok d)
        e (ground arith))
  | inr (inr e) ↦ ok-IsSound v (ground arith)
]
