-- ===== src/EventLoopThreadPool.antt =====
-- src/EventLoopThreadPool.h and src/EventLoopThreadPool.cpp: a base loop, and the loops of a number of
-- threads. A loop is of any type; `startLoop` of the thread of a name is an argument. `inits` notes the
-- loops that the callback was called with.
pub mod Turns
mod Tests
use event_loop.Prelude.{
  ℕ, zero, suc, ◌+◌, ◌%◌, Bool, true, false, not, ◌&&◌, Option, none, some, List, [], ◌∷◌, ◌++◌,
  length, get_elem?, leb, ◌==◌, if◌then◌else◌, Result, ok, err, check, undefined_access, ◌>>=◌,
  ◌>>◌,
}
use event_loop.Http.Response.{decimal}

pub record EventLoopThreadPool {ℓ} (L : Type ℓ) : Type ℓ where
  pub base_loop : L
  pub name : List ℕ
  pub started : Bool
  pub num_threads : ℕ
  pub next : ℕ
  pub loops : List L
  pub inits : List L

module _ {ℓ} {L : Type ℓ} where
  abbrev pub new_pool : L → List ℕ → EventLoopThreadPool L
  new_pool base_loop name = record {
    base_loop = base_loop;
    name = name;
    started = false;
    num_threads = 0;
    next = 0;
    loops = [];
    inits = [];
  }

  unfoldable pub set_thread_num : EventLoopThreadPool L → ℕ → EventLoopThreadPool L
  set_thread_num p n = record p { num_threads = n }

  -- The loop of `start`: threads from number `i` on, `n` of them. Each calls the callback, if there is one.
  unfoldable pub start_threads :
      (List ℕ → L) → Bool → ℕ → ℕ → EventLoopThreadPool L → EventLoopThreadPool L
  start_threads start_loop has_callback i zero p = p
  start_threads start_loop has_callback i (suc n) p =
      let loop = start_loop (p.name ++ decimal i) in
      start_threads start_loop has_callback (suc i) n (record p {
        loops = p.loops ++ loop ∷ [];
        inits = if has_callback then p.inits ++ loop ∷ [] else p.inits;
      })

  unfoldable pub start :
      (List ℕ → L) → Bool → EventLoopThreadPool L → Result (EventLoopThreadPool L)
  unfolding start_threads
  start start_loop has_callback p =
      check (not p.started)
      >> (let p' =
            start_threads start_loop has_callback 0 p.num_threads (record p { started = true }) in
          ok (
            if p'.num_threads == 0 && has_callback
            then record p' { inits = p'.inits ++ p'.base_loop ∷ [] }
            else p'))

  -- `loops_[i]`.
  abbrev pub item : Option L → Result L
  item none = err undefined_access
  item (some loop) = ok loop

  unfoldable pub advance : EventLoopThreadPool L → EventLoopThreadPool L
  advance p =
      let next = p.next + 1 in record p { next = if leb (length p.loops) next then 0 else next }

  unfoldable pub get_next_loop : EventLoopThreadPool L → Result (EventLoopThreadPool L × L)
  unfolding advance
  get_next_loop p =
      check p.started
      >> (if length p.loops == 0
          then ok (p, p.base_loop)
          else (item (get_elem? p.loops p.next) >>= λ loop. ok (advance p, loop)))

  unfoldable pub get_loop_for_hash : EventLoopThreadPool L → ℕ → Result L
  get_loop_for_hash p hash_code =
      if length p.loops == 0
      then ok p.base_loop
      else item (get_elem? p.loops (hash_code % length p.loops))

  unfoldable pub get_all_loops : EventLoopThreadPool L → Result (List L)
  get_all_loops p =
      check p.started >> ok (if length p.loops == 0 then p.base_loop ∷ [] else p.loops)
