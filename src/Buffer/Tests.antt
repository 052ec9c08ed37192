-- ===== src/Buffer/Tests.antt =====
-- Buffer.h at concrete buffers.
use event_loop.Prelude.{◌≡◌, refl, List, [], ◌∷◌, ◌++◌, some, ok, arith, length}
use event_loop.ByteQueue
use event_loop.ByteQueue.{Op, appends, retrieves, retrieves_string, retrieves_all, appended}
use event_loop.Buffer.{Buffer, contents, writable_bytes, find_crlf, search_pair}
use event_loop.Buffer.Bounds.{IsValid}
use event_loop.Buffer.Append.{Appended}
use event_loop.Buffer.ReadFd.{got, read_fd, read_capacity, read_fd_lem}
use event_loop.Buffer.Refine.{Agree, run, run_refines}

-- "ab\r\nc" behind eight free bytes, with two writable bytes.
abbrev sample : Buffer
sample = record {
  buffer = 0 ∷ 0 ∷ 0 ∷ 0 ∷ 0 ∷ 0 ∷ 0 ∷ 0 ∷ 97 ∷ 98 ∷ 13 ∷ 10 ∷ 99 ∷ 0 ∷ 0 ∷ [];
  reader_index = 8;
  writer_index = 13;
}

sample-IsValid : IsValid sample
sample-IsValid = omega arith

abbrev script : List Op
script = appends (1 ∷ 2 ∷ 3 ∷ []) ∷ retrieves 2 ∷ retrieves_string 4 ∷ retrieves 9 ∷ []

find_crlf_test : find_crlf sample ≡ some 10
unfolding find_crlf search_pair
find_crlf_test = refl

-- The vector grows: three bytes do not fit behind the contents nor after a move.
append_test : length (contents sample ++ 1 ∷ 2 ∷ 3 ∷ []) ≡ 8
append_test = refl

run_refines_example : Agree 18 (run sample script) (ByteQueue.run (contents sample) script)
unfolding appended
run_refines_example = run_refines script sample-IsValid (omega arith)

read_fd_lem_example :
    (b' : Buffer) × (read_fd sample (got (1 ∷ 2 ∷ 3 ∷ [])) ≡ ok (b', got (1 ∷ 2 ∷ 3 ∷ [])))
    × Appended sample (1 ∷ 2 ∷ 3 ∷ []) b'
unfolding read_capacity writable_bytes
read_fd_lem_example = read_fd_lem (1 ∷ 2 ∷ 3 ∷ []) sample-IsValid (omega arith) (omega arith)
