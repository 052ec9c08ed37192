-- ===== src/Acceptor/Exhausted.antt =====
-- Acceptor.cpp: what happens when no descriptor is left.
use event_loop.Prelude.{ℕ, ◌≡◌, ◌≢◌, refl, Option, none, false}
use event_loop.SocketsOps.{Errno, emfile, ebadf, Accepted, refused, accept}
use event_loop.Acceptor.{Acceptor, is_emfile, handle_read}

not_emfile : (e : Errno) → e ≢ emfile → is_emfile e ≡ false
not_emfile emfile h = absurd (h refl)
not_emfile _ h = refl

-- If fcntl(2) sets `errno` to EBADF for a number that is no descriptor, and printf(3) leaves EMFILE there only
-- where it was: when accept(2) fails, for whatever reason, handleRead changes nothing. So with no descriptor
-- left the spare one is not given up, and the connection goes on waiting.
pub handle_read-refused :
    (fcntl : Option ℕ → Errno → Errno) (print : Errno → Errno)
    → ((e : Errno) → fcntl none e ≡ ebadf)
    → ((e : Errno) → e ≢ emfile → print e ≢ emfile)
    → (a : Acceptor) (before e : Errno) (second : Accepted) (reopened : Option ℕ)
    → handle_read fcntl print a before (refused e) second reopened ≡ a
unfolding handle_read accept
handle_read-refused fcntl print bad silent a before e second reopened =
    rw (bad e, not_emfile (print (print ebadf)) (silent (print ebadf) (silent ebadf (λ x. cc))))
      refl
