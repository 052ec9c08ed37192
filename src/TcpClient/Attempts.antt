-- ===== src/TcpClient/Attempts.antt =====
-- Connector.cpp: which sockets a connector passes on, and what happens to one that is connected.
use event_loop.Prelude.{
  ℕ, ◌≡◌, ◌≢◌, ◌⊎◌, inl, inr, refl, Bool, true, false, none, some, List, ◌∷◌, ok, err,
  assertion_failed, arith, ◌==◌, if◌then◌else◌, Bool-cases, Result-cases, sym, ap, ◌∙◌,
}
use event_loop.Connector.{
  disconnected, connecting, connected, Errno, success, einprogress, eintr, eisconn, eagain,
  eaddrinuse, eaddrnotavail, econnrefused, enetunreach, eacces, eperm, eafnosupport, ealready,
  ebadf, efault, enotsock, unexpected, Task, start_task, stop_task, reset_task, Connector,
  connecting_on, dispatch, Connector, start_in_loop, start, restart, handle_write, handle_error,
  run_task, connect, retry, complete, stop_in_loop, remove_and_reset_channel, reset_channel,
  is_connecting, socket_channel, init_retry_delay,
}

dispatch-given :
    (c : Connector) (sockfd : ℕ) (errno : Errno) {d : Connector}
    → dispatch c sockfd errno ≡ ok d
    → d.given ≡ c.given
unfolding dispatch connecting_on retry
dispatch-given c sockfd success h = ground arith
dispatch-given c sockfd _ h = ground arith

-- A connector that is connected stays so, and no socket is passed on.
abbrev pub Keeps : Connector → Connector → Type 0
Keeps c d = (c.state ≡ connected → d.state ≡ connected) × (d.given ≡ c.given)

pub start_in_loop-Keeps :
    (c : Connector) (sockfd : ℕ) (errno : Errno) {d : Connector}
    → start_in_loop c sockfd errno ≡ ok d
    → Keeps c d
unfolding start_in_loop connect
start_in_loop-Keeps c sockfd errno {d} h = (
  λ e. ground (arith, e),
  ground (arith, dispatch-given (record c { opened = sockfd ∷ c.opened }) sockfd errno {d = d}),
)

pub start-Keeps :
    (in_loop_thread : Bool) (c : Connector) (sockfd : ℕ) (errno : Errno) {d : Connector}
    → start in_loop_thread c sockfd errno ≡ ok d
    → Keeps c d
unfolding start
start-Keeps true c sockfd errno h = start_in_loop-Keeps (record c { wanted = true }) sockfd errno h
start-Keeps false c sockfd errno h = ground arith

pub restart-given :
    (c : Connector) (sockfd : ℕ) (errno : Errno) {d : Connector}
    → restart c sockfd errno ≡ ok d
    → d.given ≡ c.given
unfolding restart
restart-given c sockfd errno h =
    (start_in_loop-Keeps
      (record c { state = disconnected; retry_delay = init_retry_delay; wanted = true }) sockfd
      errno h).1

pub handle_error-Keeps : (c : Connector) {d : Connector} → handle_error c ≡ ok d → Keeps c d
unfolding handle_error remove_and_reset_channel retry
handle_error-Keeps c h = (λ e. ground arith, ground arith)

pub run_task-Keeps :
    (c : Connector) (t : Task) (sockfd : ℕ) (errno : Errno) {d : Connector}
    → run_task c t sockfd errno ≡ ok d
    → Keeps c d
unfolding run_task stop_in_loop remove_and_reset_channel retry reset_channel
run_task-Keeps c start_task sockfd errno h = start_in_loop-Keeps c sockfd errno h
run_task-Keeps c stop_task sockfd errno h = (λ e. ground arith, ground arith)
run_task-Keeps c reset_task sockfd errno h = (λ e. ground arith, ground arith)

removed-given :
    (c : Connector) {r : Connector × ℕ} → remove_and_reset_channel c ≡ ok r → r.0.given ≡ c.given
unfolding remove_and_reset_channel
removed-given c h = ground arith

-- No socket was passed on, or one was, and the connector is connected.
abbrev pub Passes : Connector → Connector → Type 0
Passes c d = (d.given ≡ c.given) ⊎ ((x : ℕ) × (d.given ≡ x ∷ c.given) × (d.state ≡ connected))

complete-Passes : (c : Connector) (sockfd : ℕ) → Passes c (complete c sockfd)
unfolding complete
complete-Passes c sockfd = elim (Bool-cases c.wanted) [
  | inl w ↦ inr (sockfd, ground arith, ground arith)
  | inr w ↦ inl (ground arith)
]

retry-given : (c : Connector) (sockfd : ℕ) → (retry c sockfd).given ≡ c.given
unfolding retry
retry-given c sockfd = ground arith

-- How the attempt ends.
abbrev ending : Connector × ℕ → ℕ → Bool → Connector
ending r error self_connect =
    if error == 0 then (if self_connect then retry r.0 r.1 else complete r.0 r.1) else retry r.0 r.1

settled-Passes :
    (c : Connector) (sockfd error : ℕ) (self_connect : Bool)
    → Passes c (ending (c, sockfd) error self_connect)
settled-Passes c sockfd error self_connect = elim (Bool-cases (error == 0)) [
  | inl z ↦ elim (Bool-cases self_connect) [
    | inl y ↦ inl (rw (z, y) (retry-given c sockfd))
    | inr y ↦ rw (z, y) (complete-Passes c sockfd)
  ]
  | inr z ↦ inl (rw z (retry-given c sockfd))
]

-- A writable socket: the connector was not connected before.
pub handle_write-Passes :
    (c : Connector) (error : ℕ) (self_connect : Bool) {d : Connector}
    → handle_write c error self_connect ≡ ok d
    → (c.state ≢ connected) × Passes c d
unfolding handle_write
handle_write-Passes c error self_connect {d} h = (
  λ e. ground arith,
  elim (Bool-cases (is_connecting c.state)) [
    | inr n ↦ inl (ground arith)
    | inl y ↦ elim (Result-cases (remove_and_reset_channel c)) [
      | inr (f, e) ↦ absurd (ground (arith, e, y, h))
      | inl (r, e) ↦
          let same : ending r error self_connect ≡ d = ground (arith, e, y, h) in
          let kept = removed-given c e in
          elim (settled-Passes r.0 r.1 error self_connect) [
            | inl g ↦ inl (ap (λ (k : Connector). k.given) (sym same) ∙ g ∙ kept)
            | inr (x, g, up) ↦ inr (
              x,
              ap (λ (k : Connector). k.given) (sym same) ∙ g ∙ ap (λ (xs : List ℕ). x ∷ xs) kept,
              ap (λ (k : Connector). k.state) (sym same) ∙ up,
            )
          ]
    ]
  ],
)

retry-opened : (c : Connector) (sockfd : ℕ) → (retry c sockfd).opened ≡ c.opened
unfolding retry
retry-opened c sockfd = ground arith

connecting_on-total :
    (c : Connector) (sockfd : ℕ)
    → c.channel ≡ none
    → connecting_on c sockfd
      ≡ ok (record c { state = connecting; channel = some (socket_channel sockfd) })
unfolding connecting_on
connecting_on-total c sockfd n = rw n refl

dispatch-total :
    (c : Connector) (sockfd : ℕ) (errno : Errno)
    → c.channel ≡ none
    → (d : Connector) × (dispatch c sockfd errno ≡ ok d) × (d.opened ≡ c.opened)
unfolding dispatch
dispatch-total c sockfd success n = (_, connecting_on-total c sockfd n, refl)
dispatch-total c sockfd einprogress n = (_, connecting_on-total c sockfd n, refl)
dispatch-total c sockfd eintr n = (_, connecting_on-total c sockfd n, refl)
dispatch-total c sockfd eisconn n = (_, connecting_on-total c sockfd n, refl)
dispatch-total c sockfd eagain n = (_, refl, retry-opened c sockfd)
dispatch-total c sockfd eaddrinuse n = (_, refl, retry-opened c sockfd)
dispatch-total c sockfd eaddrnotavail n = (_, refl, retry-opened c sockfd)
dispatch-total c sockfd econnrefused n = (_, refl, retry-opened c sockfd)
dispatch-total c sockfd enetunreach n = (_, refl, retry-opened c sockfd)
dispatch-total c sockfd eacces n = (_, refl, refl)
dispatch-total c sockfd eperm n = (_, refl, refl)
dispatch-total c sockfd eafnosupport n = (_, refl, refl)
dispatch-total c sockfd ealready n = (_, refl, refl)
dispatch-total c sockfd ebadf n = (_, refl, refl)
dispatch-total c sockfd efault n = (_, refl, refl)
dispatch-total c sockfd enotsock n = (_, refl, refl)
dispatch-total c sockfd (unexpected n) e = (_, refl, refl)

-- Where no functor is to delete the channel, a restart fails no assertion, and makes a socket.
pub restart-total :
    (c : Connector) (sockfd : ℕ) (errno : Errno)
    → c.channel ≡ none
    → (d : Connector) × (restart c sockfd errno ≡ ok d) × (d.opened ≡ sockfd ∷ c.opened)
unfolding restart start_in_loop connect
restart-total c sockfd errno n =
    dispatch-total
      (record c {
        state = disconnected;
        retry_delay = init_retry_delay;
        wanted = true;
        opened = sockfd ∷ c.opened;
      })
      sockfd errno n

pub start_in_loop-fails :
    (c : Connector) (sockfd : ℕ) (errno : Errno)
    → c.state ≡ connected
    → start_in_loop c sockfd errno ≡ err assertion_failed
unfolding start_in_loop
start_in_loop-fails c sockfd errno e = rw e refl
