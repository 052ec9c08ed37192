-- ===== src/ByteQueue.antt =====
-- What a user of src/Buffer.h may rely on: a queue of bytes. The operations that the buffer's users
-- call, and what each of them does to the queue.
use event_loop.Prelude.{
  ℕ, ◌+◌, List, [], ◌∷◌, ◌++◌, length, take, drop, ltb, if◌then◌else◌, Result, ok, err,
  assertion_failed, ◌>>=◌,
}

pub data Op : Type 0 where
  appends : List ℕ → Op
  retrieves : ℕ → Op
  retrieves_string : ℕ → Op
  retrieves_all : Op

-- What a call returns (nothing is no bytes), and the queue after it. More bytes than there are
-- cannot be taken.
unfoldable pub step : List ℕ → Op → Result (List ℕ × List ℕ)
step q (appends bytes) = ok ([], q ++ bytes)
step q (retrieves n) = if ltb (length q) n then err assertion_failed else ok ([], drop n q)
step q (retrieves_string n) =
    if ltb (length q) n then err assertion_failed else ok (take n q, drop n q)
step q retrieves_all = ok ([], [])

unfoldable pub run : List ℕ → List Op → Result (List (List ℕ) × List ℕ)
run q [] = ok ([], q)
run q (op ∷ ops) = do r ← step q op; rest ← run r.1 ops; ok (r.0 ∷ rest.0, rest.1)

-- How many bytes the calls append.
unfoldable pub appended : List Op → ℕ
appended [] = 0
appended (appends bytes ∷ ops) = length bytes + appended ops
appended (retrieves n ∷ ops) = appended ops
appended (retrieves_string n ∷ ops) = appended ops
appended (retrieves_all ∷ ops) = appended ops
