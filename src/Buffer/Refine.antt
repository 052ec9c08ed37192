-- ===== src/Buffer/Refine.antt =====
-- Buffer.h: a buffer behaves as the queue of the bytes that it holds.
use native.Mathlib.Decide.{dec_lt}
use event_loop.Prelude.{
  ℕ, ◌+◌, ◌-◌, ◌≤◌, ◌<◌, ◌≡◌, refl, ap, ap₂, subst, List, [], ◌∷◌, length, Result, ok, err, ◌>>=◌,
  assertion_failed, arith, lt→ltb, le→ltb_false, lt→leb_false,
}
use event_loop.ByteQueue
use event_loop.ByteQueue.{Op, appends, retrieves, retrieves_string, retrieves_all, appended}
use event_loop.Buffer.{
  Buffer, max_size, contents, append, retrieve, retrieve_as_string, retrieve_all,
}
use event_loop.Buffer.Bounds.{IsValid, readable_bytes-eq, length-contents}
use event_loop.Buffer.Consume.{
  Holds-cases, retrieve_lem, retrieve_beyond, retrieve_as_string_lem, retrieve_all-IsValid,
  contents-retrieve_all,
}
use event_loop.Buffer.Append.{append_lem}

-- The calls on a buffer.
pub step : Buffer → Op → Result (List ℕ × Buffer)
step b (appends bytes) = append b bytes >>= (λ b'. ok ([], b'))
step b (retrieves n) = retrieve b n >>= (λ b'. ok ([], b'))
step b (retrieves_string n) = retrieve_as_string b n
step b retrieves_all = ok ([], retrieve_all b)

pub run : Buffer → List Op → Result (List (List ℕ) × Buffer)
run b [] = ok ([], b)
run b (op ∷ ops) = do r ← step b op; rest ← run r.1 ops; ok (r.0 ∷ rest.0, rest.1)

-- Both calls fail alike; or both return the same bytes, and the buffer is valid, holds the queue,
-- and has a vector no longer than the bound.
abbrev pub Agree : {O : Type 0} → ℕ → Result (O × Buffer) → Result (O × List ℕ) → Type 0
Agree bound (ok r) (ok s) =
    (r.0 ≡ s.0) × IsValid r.1 × (contents r.1 ≡ s.1) × (length r.1.buffer ≤ bound)
Agree bound (err e) (err e') = e ≡ e'
Agree bound (ok r) (err e) = ⊥
Agree bound (err e) (ok s) = ⊥

retrieve-buffer : (b : Buffer) (n : ℕ) {b' : Buffer} → retrieve b n ≡ ok b' → b'.buffer ≡ b.buffer
unfolding retrieve
retrieve-buffer b n e = ground arith

retrieve_all-buffer : (b : Buffer) → (retrieve_all b).buffer ≡ b.buffer
unfolding retrieve_all
retrieve_all-buffer b = refl

retrieve_as_string-buffer :
    (b : Buffer) (n : ℕ) {r : List ℕ × Buffer}
    → retrieve_as_string b n ≡ ok r
    → r.1.buffer ≡ b.buffer
unfolding retrieve_as_string retrieve
retrieve_as_string-buffer b n e = ground arith

retrieve_as_string_beyond :
    {b : Buffer} (n : ℕ)
    → IsValid b
    → length (contents b) < n
    → retrieve_as_string b n ≡ err assertion_failed
unfolding retrieve_as_string
retrieve_as_string_beyond {b} n v h = rw (
  readable_bytes-eq v,
  lt→leb_false n (b.writer_index - b.reader_index) (omega (arith, length-contents v)),
)

step-Agree :
    {b : Buffer} (op : Op)
    → IsValid b
    → length b.buffer + appended (op ∷ []) ≤ max_size
    → Agree (length b.buffer + appended (op ∷ [])) (step b op) (ByteQueue.step (contents b) op)
unfolding step ByteQueue.step appended
step-Agree {b} (appends bytes) v small =
    let (b', e, a) = append_lem bytes v (omega arith) in
    rw e (refl, a.valid, a.joined, omega (arith, a.bounded))
step-Agree {b} (retrieves n) v small = elim (dec_lt (length (contents b)) n) [
  | yes h ↦ rw (retrieve_beyond n v h, lt→ltb (length (contents b)) n h) refl
  | no h ↦
      let (b', e, v', c) = Holds-cases (retrieve b n) (retrieve_lem n v (omega arith)) in
      rw (e, le→ltb_false (length (contents b)) n (omega arith))
        (refl, v', c, omega (arith, ap length (retrieve-buffer b n e)))
]
step-Agree {b} (retrieves_string n) v small = elim (dec_lt (length (contents b)) n) [
  | yes h ↦ rw (retrieve_as_string_beyond n v h, lt→ltb (length (contents b)) n h) refl
  | no h ↦
      let (b', e, v', c) = retrieve_as_string_lem n v (omega arith) in
      rw (e, le→ltb_false (length (contents b)) n (omega arith))
        (refl, v', c, omega (arith, ap length (retrieve_as_string-buffer b n e)))
]
step-Agree {b} retrieves_all v small = (
  refl,
  retrieve_all-IsValid v,
  contents-retrieve_all b,
  omega (arith, ap length (retrieve_all-buffer b)),
)

cons-Agree :
    (bound : ℕ) (o o' : List ℕ) (r : Result (List (List ℕ) × Buffer))
    (s : Result (List (List ℕ) × List ℕ))
    → o ≡ o'
    → Agree bound r s
    → Agree bound (r >>= (λ t. ok (o ∷ t.0, t.1))) (s >>= (λ t. ok (o' ∷ t.0, t.1)))
cons-Agree bound o o' (ok r) (ok s) e a = (ap₂ ◌∷◌ e a.0, a.1, a.2, a.3)
cons-Agree bound o o' (err x) (err y) e a = a
cons-Agree bound o o' (ok r) (err y) e a = absurd a
cons-Agree bound o o' (err x) (ok s) e a = absurd a

then-Agree :
    (first bound : ℕ) (ops : List Op) (r : Result (List ℕ × Buffer)) (s : Result (List ℕ × List ℕ))
    → ((b : Buffer)
        → IsValid b
        → length b.buffer ≤ first
        → Agree bound (run b ops) (ByteQueue.run (contents b) ops))
    → Agree first r s
    → Agree bound
        (do x ← r; rest ← run x.1 ops; ok (x.0 ∷ rest.0, rest.1))
        (do x ← s; rest ← ByteQueue.run x.1 ops; ok (x.0 ∷ rest.0, rest.1))
then-Agree first bound ops (ok r) (ok s) ih a =
    cons-Agree bound r.0 s.0 (run r.1 ops) (ByteQueue.run s.1 ops) a.0
      (subst (λ q. Agree bound (run r.1 ops) (ByteQueue.run q ops)) a.2 (ih r.1 a.1 a.3))
then-Agree first bound ops (err x) (err y) ih a = a
then-Agree first bound ops (ok r) (err y) ih a = absurd a
then-Agree first bound ops (err x) (ok s) ih a = absurd a

Agree-mono :
    {O : Type 0} (m n : ℕ) (r : Result (O × Buffer)) (s : Result (O × List ℕ))
    → m ≤ n
    → Agree m r s
    → Agree n r s
Agree-mono m n (ok r) (ok s) h a = (a.0, a.1, a.2, omega (arith, a.3))
Agree-mono m n (err x) (err y) h a = a
Agree-mono m n (ok r) (err y) h a = absurd a
Agree-mono m n (err x) (ok s) h a = absurd a

appended-cons : (op : Op) (ops : List Op) → appended (op ∷ ops) ≡ appended (op ∷ []) + appended ops
unfolding appended
appended-cons (appends bytes) ops = omega arith
appended-cons (retrieves n) ops = omega arith
appended-cons (retrieves_string n) ops = omega arith
appended-cons retrieves_all ops = omega arith

-- Whatever calls of append, retrieve, retrieveAsString and retrieveAll are made on a valid buffer whose vector
-- has room to grow by the bytes appended: they return what they return on the queue of its contents, or fail the same assertion, and leave a
-- valid buffer that holds the queue, in a vector that grew by at most the bytes appended.
pub run_refines :
    {b : Buffer} (ops : List Op)
    → IsValid b
    → length b.buffer + appended ops ≤ max_size
    → Agree (length b.buffer + appended ops) (run b ops) (ByteQueue.run (contents b) ops)
unfolding run ByteQueue.run
run_refines {b} [] v small = (refl, v, refl, omega arith)
run_refines {b} (op ∷ ops) v small =
    let first = length b.buffer + appended (op ∷ []) in
    let bound = length b.buffer + appended (op ∷ ops) in
    then-Agree first bound ops (step b op) (ByteQueue.step (contents b) op)
      (λ b' v' h'.
        Agree-mono (length b'.buffer + appended ops) bound (run b' ops)
          (ByteQueue.run (contents b') ops) (omega (arith, appended-cons op ops))
          (run_refines {b = b'} ops v' (omega (arith, appended-cons op ops))))
      (step-Agree op v (omega (arith, appended-cons op ops)))
