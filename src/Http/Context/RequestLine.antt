-- ===== src/Http/Context/RequestLine.antt =====
-- HttpContext.cpp: a request line that is written out by the rules of HTTP is read.
use event_loop.Prelude.{
  ℕ, suc, ◌≡◌, ◌≢◌, refl, true, none, some, [], ◌∷◌, ◌++◌, append-nil, ok, arith, length, drop,
  take-append_self, drop-append_self, ne→==_false, ==_self,
}
use event_loop.Buffer.{cr, lf, find_byte}
use event_loop.Http.Request.{
  Bytes, HttpRequest, Method, invalid, get, post, head, put, delete, Version, unknown, http10,
  http11, new_request, method_name, method_of,
}
use event_loop.Http.Context.{
  protocol, process_version, process_target, process_rest, process_request_line,
}
use event_loop.Http.Context.Lines.{first_line}
use event_loop.Http.Context.Progress.{is_invalid-false}

-- A byte that does not stand among others.
abbrev pub Lacks : ℕ → Bytes → Type 0
Lacks x [] = Unit {0}
Lacks x (y ∷ ys) = (y ≢ x) × Lacks x ys

pub find_byte-found :
    (x : ℕ) (pre rest : Bytes) → Lacks x pre → find_byte x (pre ++ x ∷ rest) ≡ some (length pre)
unfolding find_byte
find_byte-found x [] rest h = rw (==_self x)
find_byte-found x (a ∷ pre) rest h = rw (ne→==_false a x h.0, find_byte-found x pre rest h.1)

pub find_byte-Lacks : (x : ℕ) (xs : Bytes) → Lacks x xs → find_byte x xs ≡ none
unfolding find_byte
find_byte-Lacks x [] h = refl
find_byte-Lacks x (a ∷ xs) h = rw (ne→==_false a x h.0, find_byte-Lacks x xs h.1)

pub Lacks-append : (x : ℕ) (xs ys : Bytes) → Lacks x xs → Lacks x ys → Lacks x (xs ++ ys)
Lacks-append x [] ys h k = k
Lacks-append x (a ∷ xs) ys h k = (h.0, Lacks-append x xs ys h.1 k)

pub first_line_lem :
    (line rest : Bytes) → Lacks cr line → first_line (line ++ cr ∷ lf ∷ rest) ≡ some (line, rest)
unfolding first_line
first_line_lem [] rest h = refl
first_line_lem (a ∷ []) rest h = rw (ne→==_false a cr h.0)
first_line_lem (a ∷ c ∷ line) rest h = rw (ne→==_false a cr h.0, first_line_lem (c ∷ line) rest h.1)

pub drop-cons :
    (pre : Bytes) (x : ℕ) (rest : Bytes) → drop (suc (length pre)) (pre ++ x ∷ rest) ≡ rest
drop-cons [] x rest = refl
drop-cons (a ∷ pre) x rest = drop-cons pre x rest

-- The parts of a request line.
abbrev pub digit : Version → ℕ
digit unknown = b'?'
digit http10 = b'0'
digit http11 = b'1'

abbrev pub tail_of : Version → Bytes
tail_of v = protocol ++ digit v ∷ []

abbrev pub request_line : Method → Bytes → Version → Bytes
request_line m target v = method_name m ++ b' ' ∷ (target ++ b' ' ∷ tail_of v)

process_version_lem :
    (r : HttpRequest) (v : Version)
    → v ≢ unknown
    → process_version r (tail_of v) ≡ (true, record r { version = v })
unfolding process_version
process_version_lem r unknown h = absurd (h refl)
process_version_lem r http10 h = refl
process_version_lem r http11 h = refl

process_rest_lem :
    (r : HttpRequest) (target : Bytes) (v : Version)
    → Lacks b' ' target
    → v ≢ unknown
    → process_rest r (target ++ b' ' ∷ tail_of v)
      ≡ (true, record (process_target r target) { version = v })
unfolding process_rest process_target
process_rest_lem r target v h k =
    rw
      (
        find_byte-found b' ' target (tail_of v) h,
        process_rest,
        take-append_self target (b' ' ∷ tail_of v),
        drop-cons target b' ' (tail_of v),
      )
      (process_version_lem (process_target r target) v k)

pub method_name-Lacks : (m : Method) → Lacks b' ' (method_name m)
method_name-Lacks invalid = omega arith
method_name-Lacks get = omega arith
method_name-Lacks post = omega arith
method_name-Lacks head = omega arith
method_name-Lacks put = omega arith
method_name-Lacks delete = omega arith

method_of_lem : (m : Method) → method_of (method_name m) ≡ m
unfolding method_of
method_of_lem invalid = refl
method_of_lem get = refl
method_of_lem post = refl
method_of_lem head = refl
method_of_lem put = refl
method_of_lem delete = refl

-- The query of a target: nothing, or what begins with a question mark.
abbrev pub IsQuery : Bytes → Type 0
IsQuery [] = Unit {0}
IsQuery (x ∷ xs) = x ≡ b'?'

process_target_lem :
    (r : HttpRequest) (path query : Bytes)
    → Lacks b'?' path
    → IsQuery query
    → r.query ≡ []
    → process_target r (path ++ query) ≡ record r { path = path; query = query }
unfolding process_target
process_target_lem r path [] h k e =
    rw (append-nil, find_byte-Lacks b'?' path h, process_target, append-nil) (ground arith)
process_target_lem r path (x ∷ query) h k e = rw (
  k,
  find_byte-found b'?' path query h,
  process_target,
  k,
  take-append_self path (b'?' ∷ query),
  drop-append_self path (b'?' ∷ query),
)

-- What a request line gives.
abbrev pub parsed_line : Method → Bytes → Bytes → Version → HttpRequest
parsed_line m path query v = record new_request {
  method = m;
  version = v;
  path = path;
  query = query;
}

pub process_request_line_lem :
    (m : Method) (path query : Bytes) (v : Version)
    → m ≢ invalid
    → v ≢ unknown
    → Lacks b'?' path
    → Lacks b' ' path
    → Lacks b' ' query
    → IsQuery query
    → process_request_line new_request (request_line m (path ++ query) v)
      ≡ ok (true, parsed_line m path query v)
unfolding process_request_line
process_request_line_lem m path query v hm hv hp hs hq hk = rw (
  find_byte-found b' ' (method_name m) ((path ++ query) ++ b' ' ∷ tail_of v) (method_name-Lacks m),
  process_request_line,
  take-append_self (method_name m) (b' ' ∷ (path ++ query) ++ b' ' ∷ tail_of v),
  method_of_lem m,
  is_invalid-false m hm,
  drop-cons (method_name m) b' ' ((path ++ query) ++ b' ' ∷ tail_of v),
  process_rest_lem (record new_request { method = m }) (path ++ query) v
      (Lacks-append b' ' path query hs hq) hv,
  process_target_lem (record new_request { method = m }) path query hp hk refl,
)
