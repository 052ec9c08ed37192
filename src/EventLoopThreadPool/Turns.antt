-- ===== src/EventLoopThreadPool/Turns.antt =====
-- EventLoopThreadPool.cpp: the loops that callers get.
use native.Mathlib.Nat.{suc-mod, mod-eq_of_lt, mod_self, mod-lt}
use event_loop.Prelude.{
  ℕ, zero, suc, ◌+◌, ◌%◌, ◌<◌, ◌≡◌, refl, sym, ap, ap₂, ◌∙◌, inl, inr, Bool, true, false, ◌&&◌,
  List, [], ◌∷◌, ◌++◌, append_assoc, append-nil, length, get_elem?, leb, ◌==◌, if◌then◌else◌,
  Bool-cases, Result, ok, err, assertion_failed, ◌>>=◌, arith,
}
use event_loop.Http.Response.{decimal}
use event_loop.EventLoopThreadPool.{
  EventLoopThreadPool, new_pool, start_threads, set_thread_num, start, item, advance, get_next_loop,
  get_loop_for_hash, get_all_loops,
}

-- An index after the next one, as getNextLoop computes it.
turn-mod : (h m : ℕ) → 0 < m → (if leb m (h % m + 1) then 0 else h % m + 1) ≡ suc h % m
turn-mod h m p = elim (Bool-cases (leb m (h % m + 1))) [
  | inl e ↦
      let same : suc (h % m) ≡ m = ground (arith, mod-lt h p) in
      let wrapped : suc h % m ≡ 0 = suc-mod h m ∙ ap (λ x. x % m) same ∙ mod_self m in ground arith
  | inr e ↦
      let less : suc (h % m) < m = ground arith in
      let kept : suc h % m ≡ suc (h % m) = suc-mod h m ∙ mod-eq_of_lt less in ground arith
]

module _ {ℓ} {L : Type ℓ} where
  item_lem : (xs : List L) (i : ℕ) → i < length xs → (x : L) × (item (get_elem? xs i) ≡ ok x)
  item_lem [] i h = absurd (omega arith)
  item_lem (x ∷ xs) zero h = (x, refl)
  item_lem (x ∷ xs) (suc i) h = item_lem xs i (omega arith)

  -- The pool after a number of calls of getNextLoop.
  pub turns : ℕ → EventLoopThreadPool L → Result (EventLoopThreadPool L)
  turns zero p = ok p
  turns (suc h) p = turns h p >>= λ q. get_next_loop q >>= λ r. ok r.0

  -- The loop that getNextLoop gives next.
  abbrev pub turn : EventLoopThreadPool L → Result L
  turn p = get_next_loop p >>= λ r. ok r.1

  get_next_loop-eq :
      (p : EventLoopThreadPool L) (h : ℕ)
      → p.started ≡ true
      → 0 < length p.loops
      → (x : L) × ((item (get_elem? p.loops (h % length p.loops)) ≡ ok x)
          × (get_next_loop (record p { next = h % length p.loops })
              ≡ ok (record p { next = suc h % length p.loops }, x)))
  unfolding get_next_loop advance
  get_next_loop-eq p h s n =
      let (x, e) = item_lem p.loops (h % length p.loops) (mod-lt h n) in
      (x, (e, ground (arith, turn-mod h (length p.loops) n)))

  turns-eq :
      (h : ℕ) (p : EventLoopThreadPool L)
      → p.started ≡ true
      → 0 < length p.loops
      → p.next ≡ 0
      → turns h p ≡ ok (record p { next = h % length p.loops })
  unfolding turns
  turns-eq zero p s n z = ap (λ i. ok (record p { next = i })) (z ∙ sym (mod-eq_of_lt n))
  turns-eq (suc h) p s n z =
      let (x, (e, g)) = get_next_loop-eq p h s n in
      ap (λ r. r >>= λ q. get_next_loop q >>= λ r'. ok r'.0) (turns-eq h p s n z)
      ∙ ap (λ r. r >>= λ r'. ok r'.0) g

  -- Without threads the pool stays as it is.
  turns-base :
      (h : ℕ) (p : EventLoopThreadPool L)
      → p.started ≡ true
      → (length p.loops == 0) ≡ true
      → turns h p ≡ ok p
  unfolding turns get_next_loop
  turns-base zero p s e = refl
  turns-base (suc h) p s e =
      ap (λ r. r >>= λ q. get_next_loop q >>= λ r'. ok r'.0) (turns-base h p s e) ∙ rw (s, e) refl

  turn-base :
      (h : ℕ) (p : EventLoopThreadPool L)
      → p.started ≡ true
      → (length p.loops == 0) ≡ true
      → turn p ≡ get_loop_for_hash p h
  unfolding get_next_loop get_loop_for_hash
  turn-base h p s e = rw (s, e) refl

  -- Of a pool that has started and gave no loop yet, with threads or without: getNextLoop gives, after any
  -- number of calls, the loop that getLoopForHash gives for that number.
  pub turn-hash :
      (p : EventLoopThreadPool L) (h : ℕ)
      → p.started ≡ true
      → p.next ≡ 0
      → (turns h p >>= λ q. turn q) ≡ get_loop_for_hash p h
  unfolding get_loop_for_hash
  turn-hash p h s z = elim (Bool-cases (length p.loops == 0)) [
    | inl e ↦ ap (λ r. r >>= λ q. turn q) (turns-base h p s e) ∙ turn-base h p s e
    | inr e ↦
        let n : 0 < length p.loops = ground arith in
        let (x, (g, k)) = get_next_loop-eq p h s n in
        ap (λ r. r >>= λ q. turn q) (turns-eq h p s n z)
        ∙ (ap (λ r. r >>= λ r'. ok r'.1) k ∙ rw e (sym g))
  ]

  -- The loops of the threads from number `i` on, each by its name.
  abbrev pub thread_loops : (List ℕ → L) → List ℕ → ℕ → ℕ → List L
  thread_loops start_loop name i zero = []
  thread_loops start_loop name i (suc n) =
      start_loop (name ++ decimal i) ∷ thread_loops start_loop name (suc i) n

  length-thread_loops :
      (start_loop : List ℕ → L) (name : List ℕ) (i n : ℕ)
      → length (thread_loops start_loop name i n) ≡ n
  length-thread_loops start_loop name i zero = refl
  length-thread_loops start_loop name i (suc n) =
      ap suc (length-thread_loops start_loop name (suc i) n)

  start_threads-eq :
      (start_loop : List ℕ → L) (has_callback : Bool) (i n : ℕ) (p : EventLoopThreadPool L)
      → start_threads start_loop has_callback i n p ≡ record p {
        loops = p.loops ++ thread_loops start_loop p.name i n;
        inits = if has_callback then p.inits ++ thread_loops start_loop p.name i n else p.inits;
      }
  unfolding start_threads
  start_threads-eq start_loop true i zero p =
      ap₂ (λ l k. record p { loops = l; inits = k }) (sym (append-nil p.loops))
        (sym (append-nil p.inits))
  start_threads-eq start_loop false i zero p =
      ap (λ l. record p { loops = l }) (sym (append-nil p.loops))
  start_threads-eq start_loop true i (suc n) p =
      start_threads-eq start_loop true (suc i) n _
      ∙ ap₂ (λ l k. record p { loops = l; inits = k })
          (append_assoc p.loops (start_loop (p.name ++ decimal i) ∷ [])
            (thread_loops start_loop p.name (suc i) n))
          (append_assoc p.inits (start_loop (p.name ++ decimal i) ∷ [])
            (thread_loops start_loop p.name (suc i) n))
  start_threads-eq start_loop false i (suc n) p =
      start_threads-eq start_loop false (suc i) n _
      ∙ ap (λ l. record p { loops = l })
          (append_assoc p.loops (start_loop (p.name ++ decimal i) ∷ [])
            (thread_loops start_loop p.name (suc i) n))

  -- A new pool with a number of threads and a callback: `start` succeeds, the loops are those of the threads
  -- named by their numbers in order, the callback is called once with each loop that getAllLoops then
  -- gives, the base loop if there is no thread, and a second start fails its assertion.
  pub start_lem :
      (start_loop : List ℕ → L) (base : L) (name : List ℕ) (n : ℕ)
      → (q : EventLoopThreadPool L) × ((start start_loop true
              (set_thread_num (new_pool base name) n)
            ≡ ok q)
          × ((q.loops ≡ thread_loops start_loop name 0 n)
              × ((get_all_loops q ≡ ok q.inits)
                  × (start start_loop true q ≡ err assertion_failed))))
  unfolding start set_thread_num get_all_loops
  start_lem start_loop base name zero = (_, (refl, (refl, (refl, refl))))
  start_lem start_loop base name (suc n) =
      let q : EventLoopThreadPool L = record (new_pool base name) {
        num_threads = suc n;
        started = true;
        loops = thread_loops start_loop name 0 (suc n);
        inits = thread_loops start_loop name 0 (suc n);
      } in
      let end : Bool → EventLoopThreadPool L → Result (EventLoopThreadPool L) =
        λ b p. ok (if b && true then record p { inits = p.inits ++ p.base_loop ∷ [] } else p) in
      let some_threads : (suc n == 0) ≡ false = ground arith in
      let some_loops : (length q.loops == 0) ≡ false = ground arith in
      (
        q,
        (
          ap (λ p. end (p.num_threads == 0) p)
                (start_threads-eq start_loop true 0 (suc n)
                  (record (new_pool base name) { num_threads = suc n; started = true }))
              ∙ ap (λ b. end b q) some_threads,
          (refl, (ap (λ b. ok (if b then base ∷ [] else q.loops)) some_loops, refl)),
        ),
      )
