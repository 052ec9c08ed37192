-- ===== src/EventLoop.antt =====
-- src/EventLoop.cpp and src/EventLoop.h: the functors that threads queue in a loop, its wakeups and its
-- end. A functor is a number. `counter` is that of the eventfd, which write(2) adds to and read(2) clears.
-- `late` counts the other threads that are between their change and their wakeup; `posted` and `run`
-- note what was queued and what was called, in order.
pub mod Order
mod Tests
use event_loop.Prelude.{
  ℕ, suc, ◌+◌, ◌-◌, Bool, true, false, not, ◌||◌, List, [], ◌∷◌, ◌++◌, if◌then◌else◌,
}

-- Where the loop's thread is: in `poll`, among the active channels, in `doPendingFunctors` with the functors
-- that are still to be called, or out of `loop`.
pub data Phase : Type 0 where
  polling handling stopped : Phase
  calling : List ℕ → Phase

pub record EventLoop : Type 0 where
  pub phase : Phase
  pub pending : List ℕ
  pub calling_pending : Bool
  pub quit : Bool
  pub counter : ℕ
  pub late : ℕ
  pub posted : List ℕ
  pub run : List ℕ

-- `callingPendingFunctors_` is not initialised: its value is an argument.
abbrev pub new_loop : Bool → EventLoop
new_loop calling_pending = record {
  phase = stopped;
  pending = [];
  calling_pending = calling_pending;
  quit = false;
  counter = 0;
  late = 0;
  posted = [];
  run = [];
}

unfoldable pub wakeup : EventLoop → EventLoop
wakeup l = record l { counter = l.counter + 1 }

-- `handleRead` of the wakeup channel.
unfoldable pub handle_read : EventLoop → EventLoop
handle_read l = record l { counter = 0 }

-- The part of `queueInLoop` under the lock.
unfoldable pub push : EventLoop → ℕ → EventLoop
push l f = record l { pending = l.pending ++ f ∷ []; posted = l.posted ++ f ∷ [] }

unfoldable pub queue_in_loop : Bool → EventLoop → ℕ → EventLoop
unfolding push wakeup
queue_in_loop in_loop_thread l f =
    let l' = push l f in if not in_loop_thread || l'.calling_pending then wakeup l' else l'

-- In the loop's thread the functor is called at once.
unfoldable pub run_in_loop : Bool → EventLoop → ℕ → EventLoop
unfolding queue_in_loop
run_in_loop in_loop_thread l f =
    if in_loop_thread
    then record l { posted = l.posted ++ f ∷ []; run = l.run ++ f ∷ [] }
    else queue_in_loop in_loop_thread l f

unfoldable pub set_quit : EventLoop → EventLoop
set_quit l = record l { quit = true }

unfoldable pub quit_loop : Bool → EventLoop → EventLoop
unfolding set_quit wakeup
quit_loop in_loop_thread l = let l' = set_quit l in if in_loop_thread then l' else wakeup l'

-- The start of `loop`.
unfoldable pub start : EventLoop → EventLoop
start l = record l { phase = polling; quit = false }

-- The start of `doPendingFunctors`: the swap.
unfoldable pub begin_functors : EventLoop → EventLoop
begin_functors l = record l { phase = calling l.pending; pending = []; calling_pending = true }

-- Calling the first of the functors that are left.
unfoldable pub call_functor : EventLoop → ℕ → List ℕ → EventLoop
call_functor l f rest = record l { phase = calling rest; run = l.run ++ f ∷ [] }

-- The end of `doPendingFunctors`, and the test of `loop`.
unfoldable pub end_functors : EventLoop → EventLoop
end_functors l = record l { phase = if l.quit then stopped else polling; calling_pending = false }
