-- ===== src/Channel/Masks.antt =====
-- Channel.h: the two flags are the bits of `events_`.
use Prim.Native.Nat.{bit_and, bit_or, bit_xor}
use event_loop.Prelude.{ℕ, Bool, true, false, ◌≡◌, refl, ◌==◌}
use event_loop.Channel.{
  Channel, read_event, write_event, none_event, mask, is_none_event, is_writing, is_reading,
  enable_reading, disable_reading, enable_writing, disable_writing, disable_all, has,
}

-- Clearing bits that are set.
abbrev clear : ℕ → ℕ → ℕ
clear m bits = bit_xor m (bit_and m bits)

-- A channel that is watched for what the two flags say.
abbrev watching : Channel → Bool → Bool → Channel
watching c r w = record c { reads = r; writes = w }

-- What each operation of the channel does to the two flags is what its bit operation does to the value
-- of `events_`: `|=`, `&= ~`, the assignment of none, and the three tests.
pub record FollowsMask (c : Channel) : Type 0 where
  pub enables_reading : mask (enable_reading c) ≡ bit_or (mask c) read_event
  pub disables_reading : mask (disable_reading c) ≡ clear (mask c) read_event
  pub enables_writing : mask (enable_writing c) ≡ bit_or (mask c) write_event
  pub disables_writing : mask (disable_writing c) ≡ clear (mask c) write_event
  pub disables_all : mask (disable_all c) ≡ none_event
  pub none : is_none_event c ≡ (mask c == none_event)
  pub reading : is_reading c ≡ has (mask c) read_event
  pub writing : is_writing c ≡ has (mask c) write_event

-- It is so for every channel.
pub mask-FollowsMask : (c : Channel) → FollowsMask c
unfolding mask enable_reading disable_reading enable_writing disable_writing disable_all
    is_none_event is_reading is_writing
mask-FollowsMask c = at c.reads c.writes
  where
    at : (r w : Bool) → FollowsMask (watching c r w)
    at true true = record {
      enables_reading = refl;
      disables_reading = refl;
      enables_writing = refl;
      disables_writing = refl;
      disables_all = refl;
      none = refl;
      reading = refl;
      writing = refl;
    }
    at true false = record {
      enables_reading = refl;
      disables_reading = refl;
      enables_writing = refl;
      disables_writing = refl;
      disables_all = refl;
      none = refl;
      reading = refl;
      writing = refl;
    }
    at false true = record {
      enables_reading = refl;
      disables_reading = refl;
      enables_writing = refl;
      disables_writing = refl;
      disables_all = refl;
      none = refl;
      reading = refl;
      writing = refl;
    }
    at false false = record {
      enables_reading = refl;
      disables_reading = refl;
      enables_writing = refl;
      disables_writing = refl;
      disables_all = refl;
      none = refl;
      reading = refl;
      writing = refl;
    }
