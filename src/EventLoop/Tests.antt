-- ===== src/EventLoop/Tests.antt =====
-- EventLoop.cpp at a concrete run.
use event_loop.Prelude.{refl, false}
use event_loop.EventLoop.{EventLoop, new_loop, start, push, wakeup}
use event_loop.EventLoop.Order.{
  Reach, here, next, starts, other_pushes, other_wakes, IsSound, Reach-IsSound,
}

-- The loop waits, and another thread queues functor 7 and wakes it.
abbrev pushed : EventLoop
unfolding start push
pushed = record (push (start (new_loop false)) 7) { late = 1 }

abbrev woken : EventLoop
unfolding start push wakeup
woken = record (wakeup pushed) { late = 0 }

steps : Reach (new_loop false) woken
unfolding start push wakeup
steps = next (next (next here (starts refl refl)) (other_pushes 7 refl)) (other_wakes 0 refl refl)

new_loop-IsSound : IsSound (new_loop false)
new_loop-IsSound = record { in_order = refl; awake = λ h. h }

Reach-IsSound_example : IsSound woken
Reach-IsSound_example = Reach-IsSound steps new_loop-IsSound
