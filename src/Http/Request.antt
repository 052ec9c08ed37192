-- ===== src/Http/Request.antt =====
-- src/HttpRequest.h: what is known of a request. A string is the list of its bytes; the map of headers
-- is a list of pairs with distinct fields.
pub mod Headers
mod Tests
use event_loop.Prelude.{
  ℕ, zero, suc, Bool, true, false, not, ◌||◌, ◌&&◌, List, [], ◌∷◌, length, take, drop, reverse, leb,
  ◌==◌, if◌then◌else◌, Result, ok, err, check, ◌>>=◌, ◌>>◌,
}

pub data Method : Type 0 where
  invalid get post head put delete : Method

pub data Version : Type 0 where
  unknown http10 http11 : Version

abbrev pub Bytes : Type 0
Bytes = List ℕ

pub record HttpRequest : Type 0 where
  pub method : Method
  pub version : Version
  pub path : Bytes
  pub query : Bytes
  pub receive_time : ℕ
  pub headers : List (Bytes × Bytes)

abbrev pub new_request : HttpRequest
new_request = record {
  method = invalid;
  version = unknown;
  path = [];
  query = [];
  receive_time = 0;
  headers = [];
}

-- `==` of strings.
unfoldable pub bytes_eq : Bytes → Bytes → Bool
bytes_eq [] [] = true
bytes_eq [] (y ∷ ys) = false
bytes_eq (x ∷ xs) [] = false
bytes_eq (x ∷ xs) (y ∷ ys) = x == y && bytes_eq xs ys

-- The methods by name.
abbrev pub method_name : Method → Bytes
method_name invalid = b'U' ∷ b'N' ∷ b'K' ∷ b'N' ∷ b'O' ∷ b'W' ∷ b'N' ∷ []
method_name get = b'G' ∷ b'E' ∷ b'T' ∷ []
method_name post = b'P' ∷ b'O' ∷ b'S' ∷ b'T' ∷ []
method_name head = b'H' ∷ b'E' ∷ b'A' ∷ b'D' ∷ []
method_name put = b'P' ∷ b'U' ∷ b'T' ∷ []
method_name delete = b'D' ∷ b'E' ∷ b'L' ∷ b'E' ∷ b'T' ∷ b'E' ∷ []

-- The ladder of comparisons in `setMethod`.
unfoldable pub method_of : Bytes → Method
unfolding bytes_eq
method_of m =
    if bytes_eq m (method_name get)
    then get
    else (if bytes_eq m (method_name post)
        then post
        else (if bytes_eq m (method_name head)
            then head
            else (if bytes_eq m (method_name put)
                then put
                else (if bytes_eq m (method_name delete) then delete else invalid))))

abbrev pub is_invalid : Method → Bool
is_invalid invalid = true
is_invalid get = false
is_invalid post = false
is_invalid head = false
is_invalid put = false
is_invalid delete = false

unfoldable pub set_method : HttpRequest → Bytes → Result (Bool × HttpRequest)
set_method r m =
    check (is_invalid r.method)
    >> ok (not (is_invalid (method_of m)), record r { method = method_of m })

unfoldable pub set_version : HttpRequest → Version → HttpRequest
set_version r v = record r { version = v }

unfoldable pub set_path : HttpRequest → Bytes → HttpRequest
set_path r bytes = record r { path = bytes }

unfoldable pub set_query : HttpRequest → Bytes → HttpRequest
set_query r bytes = record r { query = bytes }

unfoldable pub set_receive_time : HttpRequest → ℕ → HttpRequest
set_receive_time r t = record r { receive_time = t }

-- `isspace` of the C locale.
unfoldable pub is_space : ℕ → Bool
is_space c = c == 32 || (leb 9 c && leb c 13)

-- The two loops of `addHeader`: over the blanks at the front, and over those at the end.
unfoldable pub skip_spaces : Bytes → Bytes
unfolding is_space
skip_spaces [] = []
skip_spaces (c ∷ r) = let rest = skip_spaces r in if is_space c then rest else c ∷ r

unfoldable pub trim_end : Bytes → Bytes
unfolding skip_spaces
trim_end value = reverse (skip_spaces (reverse value))

-- `headers_[field] = value`.
unfoldable pub assign : Bytes → Bytes → List (Bytes × Bytes) → List (Bytes × Bytes)
unfolding bytes_eq
assign field value [] = (field, value) ∷ []
assign field value ((f, v) ∷ hs) =
    if bytes_eq f field then (field, value) ∷ hs else (f, v) ∷ assign field value hs

-- The line is given with the number of bytes before its colon.
unfoldable pub add_header : HttpRequest → Bytes → ℕ → HttpRequest
unfolding skip_spaces trim_end assign
add_header r line colon =
    let field = take colon line in
    let value = trim_end (skip_spaces (drop (suc colon) line)) in
    record r { headers = assign field value r.headers }

find_header : Bytes → List (Bytes × Bytes) → Bytes
unfolding bytes_eq
find_header field [] = []
find_header field ((f, v) ∷ hs) = if bytes_eq f field then v else find_header field hs

-- The value of a field, or the empty string.
unfoldable pub get_header : HttpRequest → Bytes → Bytes
unfolding find_header
get_header r field = find_header field r.headers

unfoldable pub swap : HttpRequest → HttpRequest → HttpRequest × HttpRequest
swap this that = (that, this)
