-- ===== src/MutexLock/Holder.antt =====
-- MutexLock.h and Condition.h: whom the lock takes for its holder.
use event_loop.Prelude.{
  ℕ, ◌≡◌, ◌≢◌, refl, sym, ap, ◌∙◌, none, some, false, err, assertion_failed, check, ne→==_false,
}
use event_loop.MutexLock.{
  MutexLock, lock, unlock, is_locked_by_this_thread, assert_locked, fall_asleep, wake_up,
}

-- What the thread `t` may do.
pub data Step (t : ℕ) (m n : MutexLock) : Type 0 where
  locks : m.owner ≡ none → n ≡ lock t m → Step t m n
  unlocks : m.owner ≡ some t → n ≡ unlock m → Step t m n
  sleeps : m.owner ≡ some t → n ≡ fall_asleep m → Step t m n
  wakes : m.owner ≡ none → n ≡ wake_up t m → Step t m n

-- What all threads but `t` may do.
pub data ReachByOthers (t : ℕ) (m : MutexLock) : MutexLock → Type 0 where
  here : ReachByOthers t m m
  next : {n o : MutexLock} (u : ℕ) → u ≢ t → ReachByOthers t m n → Step u n o → ReachByOthers t m o

module _ (t : ℕ) (some_thread : t ≢ 0) where
  Step-ne : {m n : MutexLock} (u : ℕ) → u ≢ t → Step u m n → m.holder ≢ t → n.holder ≢ t
  unfolding lock unlock fall_asleep wake_up
  Step-ne u o (locks h e) v = λ x. o (ap (λ (k : MutexLock). k.holder) (sym e) ∙ x)
  Step-ne u o (unlocks h e) v =
      λ x. some_thread (sym (ap (λ (k : MutexLock). k.holder) (sym e) ∙ x))
  Step-ne u o (sleeps h e) v = λ x. v (ap (λ (k : MutexLock). k.holder) (sym e) ∙ x)
  Step-ne u o (wakes h e) v = λ x. v (ap (λ (k : MutexLock). k.holder) (sym e) ∙ x)

  reach-ne : {m n : MutexLock} → ReachByOthers t m n → m.holder ≢ t → n.holder ≢ t
  reach-ne here v = v
  reach-ne (next u o r s) v = Step-ne u o s (reach-ne r v)

  -- A thread that waits on a condition, while another one takes the mutex, and whatever other threads do with
  -- the mutex then: when it is free and the wait returns, the thread has the mutex, but the lock does not
  -- take it for its holder, and assertLocked fails.
  pub wake_up-lock :
      (m : MutexLock) (u : ℕ) {n : MutexLock}
      → u ≢ t
      → ReachByOthers t (lock u (fall_asleep (lock t m))) n
      → n.owner ≡ none
      → ((wake_up t n).owner ≡ some t)
        × (is_locked_by_this_thread t (wake_up t n) ≡ false)
        × (assert_locked t (wake_up t n) ≡ err assertion_failed)
  unfolding lock wake_up is_locked_by_this_thread
  wake_up-lock m u {n} o r free =
      let off = ne→==_false n.holder t (reach-ne r o) in (refl, off, ap check off)
