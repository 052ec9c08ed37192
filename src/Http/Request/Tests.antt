-- ===== src/Http/Request/Tests.antt =====
-- HttpRequest.h at a concrete header.
use event_loop.Prelude.{[], ◌∷◌}
use event_loop.Http.Request.{Bytes}

-- "A: b "
abbrev line : Bytes
line = b'A' ∷ b':' ∷ b' ' ∷ b'b' ∷ b' ' ∷ []
