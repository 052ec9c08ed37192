-- ===== src/Endian.antt =====
-- src/Endian.h: the conversions between host and network byte order, for a little-endian host
-- (`htobe64` and its kin swap the bytes there). A word is its bit pattern, a number below 256 ^ k
-- for a word of k bytes; its bytes in memory stand lowest first.
pub mod RoundTrip
use event_loop.Prelude.{ℕ, zero, suc, ◌+◌, ◌*◌, ◌/◌, ◌%◌, List, [], ◌∷◌, reverse}

-- The k bytes of a word in memory.
pub to_bytes : ℕ → ℕ → List ℕ
to_bytes zero x = []
to_bytes (suc k) x = (x % 256) ∷ to_bytes k (x / 256)

-- The word that the bytes in memory are read as.
pub of_bytes : List ℕ → ℕ
of_bytes [] = 0
of_bytes (b ∷ bs) = b + 256 * of_bytes bs

-- htobe16, htobe32 and htobe64, and the three functions back.
pub swap_bytes : ℕ → ℕ → ℕ
unfolding to_bytes of_bytes
swap_bytes k x = of_bytes (reverse (to_bytes k x))

unfoldable pub host_to_network64 : ℕ → ℕ
host_to_network64 host64 = swap_bytes 8 host64

unfoldable pub host_to_network32 : ℕ → ℕ
host_to_network32 host32 = swap_bytes 4 host32

unfoldable pub host_to_network16 : ℕ → ℕ
host_to_network16 host16 = swap_bytes 2 host16

unfoldable pub network_to_host64 : ℕ → ℕ
network_to_host64 net64 = swap_bytes 8 net64

unfoldable pub network_to_host32 : ℕ → ℕ
network_to_host32 net32 = swap_bytes 4 net32

unfoldable pub network_to_host16 : ℕ → ℕ
network_to_host16 net16 = swap_bytes 2 net16
