-- ===== src/EventLoopThreadPool/Tests.antt =====
-- Runs of a pool, for examples.
use event_loop.Prelude.{ℕ, ◌≡◌, refl, true, [], ◌∷◌, ◌>>=◌}
use event_loop.EventLoopThreadPool.{EventLoopThreadPool, new_pool, get_loop_for_hash}
use event_loop.EventLoopThreadPool.Turns.{turns, turn, turn-hash}

-- Three threads; a loop is a number.
abbrev three : EventLoopThreadPool ℕ
three = record (new_pool 9 []) { started = true; num_threads = 3; loops = 4 ∷ 5 ∷ 6 ∷ [] }

turn-hash_example : (turns 7 three >>= λ q. turn q) ≡ get_loop_for_hash three 7
turn-hash_example = turn-hash three 7 refl refl
