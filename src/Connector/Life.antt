-- ===== src/Connector/Life.antt =====
-- Connector.cpp: a connector over time, and what a writable socket does to it.
use event_loop.Prelude.{
  ℕ, suc, ◌≡◌, refl, sym, ap, subst, ◌∙◌, inl, inr, Bool, true, false, not, Option, none, some,
  List, [], ◌∷◌, ◌++◌, if◌then◌else◌, ◌==◌, ◌&&◌, ok, arith, Option-cases, Bool-cases,
}
use event_loop.Channel.{Channel}
use event_loop.Connector.{
  disconnected, connecting, connected, Errno, Task, start_task, stop_task, reset_task, Connector,
  new_connector, start_in_loop, start, stop, restart, reset_channel, complete, handle_write,
  handle_error, run_task, retry, init_retry_delay,
}
use event_loop.Connector.Sockets.{
  resets, resets-append, IsSound, IsChannelOf, State-cases, remove_and_reset_channel_lem,
  connecting-channel, removed-IsHolding, retry-IsSound, complete-IsSound, ok-IsSound,
  start_in_loop-IsSound, stop_in_loop-IsSound, handle_error-IsSound,
}

-- What may happen to a connector. Its owner restarts it when it is connected.
pub data Step (c d : Connector) : Type 0 where
  starts :
      (in_loop_thread : Bool) (sockfd : ℕ) (errno : Errno)
      → start in_loop_thread c sockfd errno ≡ ok d
      → Step c d
  retries : (sockfd : ℕ) (errno : Errno) → start_in_loop c sockfd errno ≡ ok d → Step c d
  stops : d ≡ stop c → Step c d
  restarts :
      (sockfd : ℕ) (errno : Errno) → c.state ≡ connected → restart c sockfd errno ≡ ok d → Step c d
  writes : (error : ℕ) (self_connect : Bool) → handle_write c error self_connect ≡ ok d → Step c d
  errors : handle_error c ≡ ok d → Step c d
  runs :
      (t : Task) (ts : List Task) (sockfd : ℕ) (errno : Errno)
      → c.tasks ≡ t ∷ ts
      → run_task (record c { tasks = ts }) t sockfd errno ≡ ok d
      → Step c d

pub data Reach (c : Connector) : Connector → Type 0 where
  here : Reach c c
  next : {d e : Connector} → Reach c d → Step d e → Reach c e

-- Where the socket goes that became writable: it failed, or is connected to itself, or is connected.
abbrev pub writable : Connector → ℕ → ℕ → Bool → Connector
writable c sockfd error self_connect =
    if error == 0 && not self_connect then complete c sockfd else retry c sockfd

-- handleWrite of a connector that connects.
handle_write-eq :
    (c : Connector) (error : ℕ) (self_connect : Bool)
    → c.state ≡ connecting
    → (ch : Channel) → c.channel ≡ some ch
    → handle_write c error self_connect
      ≡ ok (
          writable
            (record c {
              channel = some (record ch { reads = false; writes = false; added_to_loop = false });
              tasks = c.tasks ++ reset_task ∷ [];
            })
            ch.fd
            error
            self_connect)
unfolding handle_write
handle_write-eq c error self_connect e ch h =
    let r = remove_and_reset_channel_lem c ch h in
    elim (Bool-cases (error == 0)) [
      | inl z ↦ elim (Bool-cases self_connect) [ inl y ↦ ground arith | inr y ↦ ground arith ]
      | inr z ↦ ground arith
    ]

handle_write-IsSound :
    (c : Connector) (error : ℕ) (self_connect : Bool)
    → IsSound c
    → {d : Connector} → handle_write c error self_connect ≡ ok d
    → IsSound d
unfolding handle_write
handle_write-IsSound c error self_connect v {d} g = elim (State-cases c.state) [
  | inl e ↦ ok-IsSound v (ground arith)
  | inr (inl e) ↦
      let (ch, (h, n)) = connecting-channel c v e in
      let held =
        removed-IsHolding c ch (record ch { reads = false; writes = false; added_to_loop = false })
          c.state v e h n refl refl in
      let g' = sym (handle_write-eq c error self_connect e ch h) ∙ g in
      elim (Bool-cases (error == 0 && not self_connect)) [
        | inl z ↦ ok-IsSound (complete-IsSound _ ch.fd held) (ground arith)
        | inr z ↦ ok-IsSound (retry-IsSound _ ch.fd held) (ground arith)
      ]
  | inr (inr e) ↦ absurd (ground arith)
]

-- The functors that are left in the queue.
popped-IsSound :
    (c : Connector) (ts : List Task)
    → IsSound c
    → resets c.tasks ≡ resets ts
    → IsSound (record c { tasks = ts })
popped-IsSound c ts v e = record {
  counted = v.counted;
  channel_is = subst (IsChannelOf c.state c.channel) e v.channel_is;
}

reset_channel-IsSound :
    (c : Connector) (ts : List Task)
    → IsSound c
    → resets c.tasks ≡ suc (resets ts)
    → IsSound (reset_channel (record c { tasks = ts }))
unfolding reset_channel
reset_channel-IsSound c ts v e = elim (Option-cases c.channel) [
  | inl n ↦ absurd (elim (State-cases c.state) [
    | inl s ↦ (let h = v.channel_is in ground arith)
    | inr (inl s) ↦ (let h = v.channel_is in ground arith)
    | inr (inr s) ↦ (let h = v.channel_is in ground arith)
  ])
  | inr (ch, n) ↦ elim (State-cases c.state) [
    | inl s ↦ record {
      counted = λ m. let h = v.counted m in ground arith;
      channel_is = let h = v.channel_is in ground arith;
    }
    | inr (inl s) ↦ absurd (let h = v.channel_is in ground arith)
    | inr (inr s) ↦ record {
      counted = λ m. let h = v.counted m in ground arith;
      channel_is = let h = v.channel_is in ground arith;
    }
  ]
]

run_task-IsSound :
    (c : Connector) (t : Task) (ts : List Task) (sockfd : ℕ) (errno : Errno)
    → IsSound c
    → c.tasks ≡ t ∷ ts
    → {d : Connector} → run_task (record c { tasks = ts }) t sockfd errno ≡ ok d
    → IsSound d
unfolding run_task
run_task-IsSound c start_task ts sockfd errno v e g =
    start_in_loop-IsSound _ sockfd errno (popped-IsSound c ts v (ap resets e)) g
run_task-IsSound c stop_task ts sockfd errno v e g =
    stop_in_loop-IsSound _ (popped-IsSound c ts v (ap resets e)) g
run_task-IsSound c reset_task ts sockfd errno v e g =
    ok-IsSound (reset_channel-IsSound c ts v (ap resets e)) g

-- A functor that is queued, and a change of what the owner wants.
queued-IsSound :
    (c : Connector) (wanted : Bool) (t : Task)
    → IsSound c
    → resets (t ∷ []) ≡ 0
    → IsSound (record c { wanted = wanted; tasks = c.tasks ++ t ∷ [] })
queued-IsSound c wanted t v e = record {
  counted = v.counted;
  channel_is =
      subst (IsChannelOf c.state c.channel) (ground (arith, resets-append c.tasks (t ∷ [])))
        v.channel_is;
}

start-IsSound :
    (in_loop_thread : Bool) (c : Connector) (sockfd : ℕ) (errno : Errno)
    → IsSound c
    → {d : Connector} → start in_loop_thread c sockfd errno ≡ ok d
    → IsSound d
unfolding start
start-IsSound true c sockfd errno v g =
    start_in_loop-IsSound (record c { wanted = true }) sockfd errno
      (record { counted = v.counted; channel_is = v.channel_is }) g
start-IsSound false c sockfd errno v g = ok-IsSound (queued-IsSound c true start_task v refl) g

restart-IsSound :
    (c : Connector) (sockfd : ℕ) (errno : Errno)
    → IsSound c
    → c.state ≡ connected
    → {d : Connector} → restart c sockfd errno ≡ ok d
    → IsSound d
unfolding restart
restart-IsSound c sockfd errno v e g =
    start_in_loop-IsSound
      (record c { state = disconnected; retry_delay = init_retry_delay; wanted = true }) sockfd
      errno
      (record {
        counted = λ n. let h = v.counted n in ground arith;
        channel_is =
            off c.channel (resets c.tasks)
              (subst (λ s. IsChannelOf s c.channel (resets c.tasks)) e v.channel_is);
      })
      g
  where
    off : (ch : Option Channel) (n : ℕ) → IsChannelOf connected ch n → IsChannelOf disconnected ch n
    off none n h = h
    off (some ch) n h = h

Step-IsSound : {c d : Connector} → Step c d → IsSound c → IsSound d
unfolding stop
Step-IsSound (starts t n e g) v = start-IsSound t _ n e v g
Step-IsSound (retries n e g) v = start_in_loop-IsSound _ n e v g
Step-IsSound {c} (stops g) v = subst IsSound (sym g) (queued-IsSound c false stop_task v refl)
Step-IsSound (restarts n e s g) v = restart-IsSound _ n e v s g
Step-IsSound (writes n b g) v = handle_write-IsSound _ n b v g
Step-IsSound (errors g) v = handle_error-IsSound _ v g
Step-IsSound (runs t ts n e q g) v = run_task-IsSound _ t ts n e v q g

-- Whatever happens to a new connector, in any order, as long as no assertion fails and it is restarted only
-- when connected: each socket number was created as often as it was closed, passed to the owner, or is
-- that of the channel of a connector that connects. Only then is the channel in the loop, and watched
-- for writing; after that one functor is queued to delete it.
pub IsSound-reached : {c : Connector} → Reach new_connector c → IsSound c
IsSound-reached here = record { counted = λ n. refl; channel_is = refl }
IsSound-reached (next r s) = Step-IsSound s (IsSound-reached r)

-- What a writable socket does, given how the attempt ended.
pub record IsWritten (c d : Connector) (sockfd : ℕ) (connects : Bool) : Type 0 where
  passed : connects ≡ true → c.wanted ≡ true → d.given ≡ sockfd ∷ c.given
  dropped : connects ≡ true → c.wanted ≡ false → d.closed ≡ sockfd ∷ c.closed
  connected_now : connects ≡ true → d.state ≡ connected
  failed : connects ≡ false → d.closed ≡ sockfd ∷ c.closed
  disconnected_now : connects ≡ false → d.state ≡ disconnected
  retried : connects ≡ false → c.wanted ≡ true → d.delays ≡ c.delays ++ c.retry_delay ∷ []
  not_retried : connects ≡ false → c.wanted ≡ false → d.delays ≡ c.delays

writable-IsWritten :
    (c : Connector) (sockfd error : ℕ) (self_connect : Bool)
    → IsWritten c (writable c sockfd error self_connect) sockfd (error == 0 && not self_connect)
unfolding complete retry
writable-IsWritten c sockfd error self_connect = record {
  passed = λ b w. ground arith;
  dropped = λ b w. ground arith;
  connected_now = λ b. ground arith;
  failed = λ b. ground arith;
  disconnected_now = λ b. ground arith;
  retried = λ b w. ground arith;
  not_retried = λ b w. ground arith;
}

-- For a sound connector that connects, handleWrite fails no assertion, whatever the socket's error. If there
-- is none and the socket is not connected to itself, the state is connected, and the socket is passed
-- to the owner, or closed if the connector was stopped. Otherwise it is closed, the state is
-- disconnected, and a retry is due after the delay unless the connector was stopped.
pub handle_write_lem :
    (c : Connector) (error : ℕ) (self_connect : Bool)
    → IsSound c
    → c.state ≡ connecting
    → (ch : Channel) × ((c.channel ≡ some ch)
        × ((d : Connector) × ((handle_write c error self_connect ≡ ok d)
              × IsWritten c d ch.fd (error == 0 && not self_connect))))
handle_write_lem c error self_connect v e =
    let (ch, (h, n)) = connecting-channel c v e in
    let w =
      writable-IsWritten
        (record c {
          channel = some (record ch { reads = false; writes = false; added_to_loop = false });
          tasks = c.tasks ++ reset_task ∷ [];
        })
        ch.fd error self_connect in
    (
      ch,
      (
        h,
        (
          _,
          (
            handle_write-eq c error self_connect e ch h,
            record {
              passed = w.passed;
              dropped = w.dropped;
              connected_now = w.connected_now;
              failed = w.failed;
              disconnected_now = w.disconnected_now;
              retried = w.retried;
              not_retried = w.not_retried;
            },
          ),
        ),
      ),
    )
