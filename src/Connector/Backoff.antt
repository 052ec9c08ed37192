-- ===== src/Connector/Backoff.antt =====
-- Connector.cpp, retry: the delays of attempts that fail one after another.
use event_loop.Prelude.{
  ℕ, suc, ◌*◌, ◌^◌, ◌≡◌, sym, ◌∙◌, min, true, List, [], ◌∷◌, ◌++◌, append_assoc, append-nil, arith,
}
use event_loop.Connector.{Connector, retry, max_retry_delay, init_retry_delay}

-- Sockets that fail one after another.
abbrev pub retry_all : Connector → List ℕ → Connector
retry_all c [] = c
retry_all c (sockfd ∷ sockets) = retry_all (retry c sockfd) sockets

-- The delay after `n` failures.
abbrev pub delay : ℕ → ℕ
delay n = min (init_retry_delay * 2 ^ n) max_retry_delay

-- The delays of `sockets`, the first of them after `n` failures.
abbrev pub delays_from : ℕ → List ℕ → List ℕ
delays_from n [] = []
delays_from n (sockfd ∷ sockets) = delay n ∷ delays_from (suc n) sockets

delay-suc : (n : ℕ) → min (delay n * 2) max_retry_delay ≡ delay (suc n)
delay-suc n = doubled (2 ^ n) (2 ^ suc n) (omega arith)
  where
    doubled : (a b : ℕ) → b ≡ 2 * a → min (min (500 * a) 30000 * 2) 30000 ≡ min (500 * b) 30000
    doubled a b e = omega arith

-- If a connector that is wanted has the delay of `n` failures, and more attempts fail, each retry waits half
-- a second times two to the number of failures before it, and thirty seconds at most.
pub retry_all-delays :
    (sockets : List ℕ) (c : Connector) (n : ℕ)
    → c.wanted ≡ true
    → c.retry_delay ≡ delay n
    → (retry_all c sockets).delays ≡ c.delays ++ delays_from n sockets
unfolding retry
retry_all-delays [] c n w e = sym (append-nil c.delays)
retry_all-delays (sockfd ∷ sockets) c n w e =
    retry_all-delays sockets (retry c sockfd) (suc n) (ground arith) (ground (arith, delay-suc n))
    ∙ ground (arith, append_assoc c.delays (delay n ∷ []) (delays_from (suc n) sockets))
