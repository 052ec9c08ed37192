-- ===== src/Acceptor/Tests.antt =====
-- An acceptor, for examples.
use event_loop.Prelude.{ℕ, ◌≡◌, refl, true, Option, none, some, [], ◌∷◌}
use event_loop.SocketsOps.{Errno, eagain, emfile, ebadf, accepted, refused, accept}
use event_loop.Acceptor.{Acceptor, new_acceptor, listen, give, handle_read}
use event_loop.Acceptor.Descriptors.{Reach, here, next, sets_callback, listens, reads}
use event_loop.Acceptor.Exhausted.{handle_read-refused}

-- fcntl(2) and printf(3) as they are.
fcntl : Option ℕ → Errno → Errno
fcntl none e = ebadf
fcntl (some fd) e = e

print : Errno → Errno
print e = e

-- The listening socket 3, with the spare descriptor 4.
abbrev start : Acceptor
unfolding new_acceptor
start = new_acceptor 3 4

abbrev busy : Acceptor
unfolding new_acceptor listen
busy = record (listen start) { has_callback = true; opened = 5 ∷ 4 ∷ []; passed = 5 ∷ [] }

busy-Reach : Reach fcntl print start busy
unfolding new_acceptor listen handle_read accept give
busy-Reach =
    next
      (next {b = record start { has_callback = true }} (next here (sets_callback true refl))
        (listens refl))
      (reads eagain (accepted 5) (refused eagain) none refl)

handle_read-refused_example :
    handle_read fcntl print busy eagain (refused emfile) (accepted 6) (some 7) ≡ busy
unfolding fcntl print
handle_read-refused_example =
    handle_read-refused fcntl print (λ e. refl) (λ e h. h) busy eagain emfile (accepted 6) (some 7)
