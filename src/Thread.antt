-- ===== src/Thread.antt =====
-- src/Thread.cpp: what a Thread keeps of its thread. Whether pthread_create(3) succeeds and the number of the
-- new thread are arguments. `start` is its part before the latch, and `check_tid` what follows.
use event_loop.Prelude.{
  ℕ, Bool, true, false, not, ◌&&◌, ◌∷◌, length, take, ltb, ◌==◌, if◌then◌else◌, Result, ok, check,
  ◌>>◌, pos,
}
use event_loop.Http.Request.{Bytes}
use event_loop.Http.Response.{decimal}
use event_loop.CountDownLatch.{CountDownLatch, new_latch, count_down}

pub record Thread : Type 0 where
  pub started : Bool
  pub joined : Bool
  pub tid : ℕ
  pub name : Bytes
  pub latch : CountDownLatch

-- `Thread%d` in 32 bytes, if there is no name. The number is that of the threads made, with this one.
unfoldable pub set_default_name : ℕ → Bytes → Bytes
set_default_name num name =
    if length name == 0
    then take 31 (b'T' ∷ b'h' ∷ b'r' ∷ b'e' ∷ b'a' ∷ b'd' ∷ decimal num)
    else name

unfoldable pub new_thread : ℕ → Bytes → Thread
unfolding set_default_name
new_thread num name = record {
  started = false;
  joined = false;
  tid = 0;
  name = set_default_name num name;
  latch = new_latch (pos 1);
}

unfoldable pub start : Bool → Thread → Result Thread
start created t = check (not t.started) >> ok (record t { started = created })

abbrev pub check_tid : Thread → Result Thread
check_tid t = check (ltb 0 t.tid) >> ok t

-- The start of `runInThread`: the new thread says its number and counts down.
unfoldable pub run_in_thread : ℕ → Thread → Thread × Bool
unfolding count_down
run_in_thread tid t =
    let counted = count_down t.latch in (record t { tid = tid; latch = counted.0 }, counted.1)

unfoldable pub join : Thread → Result Thread
join t = check t.started >> check (not t.joined) >> ok (record t { joined = true })

-- Whether the destructor detaches the thread.
unfoldable pub detaches : Thread → Bool
detaches t = t.started && not t.joined
