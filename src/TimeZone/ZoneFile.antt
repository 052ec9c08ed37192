-- ===== src/TimeZone/ZoneFile.antt =====
-- TimeZone.cpp: reading a zone file. A file is the list of its bytes, or none if it cannot be opened. What is
-- read goes into the data as it comes, so a reader that throws `logic_error` leaves what came before.
pub mod Print
pub mod RoundTrip
mod Tests
use event_loop.Prelude.{
  ℕ, zero, suc, ◌+◌, ◌-◌, ◌∷◌, ◌++◌, Bool, true, false, not, Option, none, some, List, [], length,
  get_elem?, take, drop, leb, ltb, ◌==◌, if◌then◌else◌, Fault, undefined_access, Result, ok, err, ℤ,
  pos, negsuc, pos_part, is_negative, ◌+ℤ◌,
}
use event_loop.Endian.{of_bytes, network_to_host32}
use event_loop.Http.Request.{Bytes, bytes_eq}
use event_loop.TimeZone.{Transition, Localtime, Data}

-- A value with the bytes that are left; an exception; or an access that is undefined.
pub data Outcome {ℓ} (A : Type ℓ) : Type ℓ where
  got : A → Bytes → Data → Outcome A
  thrown : Data → Outcome A
  broken : Fault → Outcome A

abbrev pub Read {ℓ} : Type ℓ → Type ℓ
Read A = Bytes → Data → Outcome A

infixl 5 ◌>>=◌ ◌>>◌
abbrev pub ◌>>=◌ {ℓ κ} : {A : Type ℓ} {B : Type κ} → Read A → (A → Read B) → Read B
◌>>=◌ m f bytes d = elim (m bytes d) [
  | got a rest d' ↦ f a rest d'
  | thrown d' ↦ thrown d'
  | broken fault ↦ broken fault
]

abbrev pub ◌>>◌ {ℓ κ} : {A : Type ℓ} {B : Type κ} → Read A → Read B → Read B
m >> n = m >>= λ a. n

abbrev pub return {ℓ} : {A : Type ℓ} → A → Read A
return a bytes d = got a bytes d

abbrev pub throw : Read (Unit {0})
throw bytes d = thrown d

abbrev pub throw_if : Bool → Read (Unit {0})
throw_if b = if b then throw else return tt

unfoldable pub read_bytes : ℤ → Read Bytes
read_bytes (pos n) bytes d =
    if leb n (length bytes) then got (take n bytes) (drop n bytes) d else thrown d
read_bytes (negsuc n) bytes d = broken undefined_access

-- A word as an `int32_t`.
abbrev pub to_int32 : ℕ → ℤ
to_int32 u = if ltb u 0x80000000 then pos u else negsuc (0xffffffff - u)

unfoldable pub read_int32 : Read ℤ
read_int32 bytes d =
    if leb 4 (length bytes)
    then got (to_int32 (network_to_host32 (of_bytes (take 4 bytes)))) (drop 4 bytes) d
    else thrown d

unfoldable pub read_uint8 : Read ℕ
read_uint8 [] d = thrown d
read_uint8 (b ∷ bytes) d = got b bytes d

-- A loop that fills a vector.
unfoldable pub read_all {ℓ} : {A : Type ℓ} → ℕ → Read A → Read (List A)
read_all zero m = return []
read_all (suc n) m = m >>= λ a. read_all n m >>= λ rest. return (a ∷ rest)

abbrev pub push_localtime : Localtime → Read (Unit {0})
push_localtime l bytes d = got tt bytes (record d { localtimes = d.localtimes ++ l ∷ [] })

unfoldable pub read_localtimes : ℕ → Read (Unit {0})
unfolding read_int32 read_uint8
read_localtimes zero = return tt
read_localtimes (suc n) = read_int32 >>= λ gmtoff. read_uint8 >>= λ isdst. read_uint8 >>= λ abbrind.
    push_localtime (record { gmt_offset = gmtoff; is_dst = not (isdst == 0); arrb_idx = abbrind })
    >> read_localtimes n

-- `data->localtimes[localIdx]`, and the transition that is added.
unfoldable pub push_transition : ℤ → ℕ → Read (Unit {0})
push_transition trans local_idx bytes d = elim (get_elem? d.localtimes local_idx) [
  | none ↦ broken undefined_access
  | some l ↦ got tt bytes (record d {
    transitions =
        d.transitions
        ++ record { gmttime = trans; localtime = trans +ℤ l.gmt_offset; localtime_idx = local_idx }
          ∷ [];
  })
]

unfoldable pub push_transitions : List ℤ → List ℕ → Read (Unit {0})
unfolding push_transition
push_transitions [] local = return tt
push_transitions (t ∷ trans) [] = λ bytes d. broken undefined_access
push_transitions (t ∷ trans) (l ∷ local) = push_transition t l >> push_transitions trans local

abbrev pub set_abbreviation : Bytes → Read (Unit {0})
set_abbreviation text bytes d = got tt bytes (record d { abbreviation = text })

abbrev pub magic : Bytes
magic = b'T' ∷ b'Z' ∷ b'i' ∷ b'f' ∷ []

-- The counts and what follows them. `reserve` of a negative number throws, too.
unfoldable pub read_body : Read (Unit {0})
unfolding read_bytes read_int32 read_uint8 read_all read_localtimes push_transitions
read_body = read_int32 >>= λ isgmtcnt. read_int32 >>= λ isstdcnt. read_int32 >>= λ leapcnt.
    read_int32 >>= λ timecnt. read_int32 >>= λ typecnt. read_int32 >>= λ charcnt.
    throw_if (is_negative timecnt)
    >> (read_all (pos_part timecnt) read_int32 >>= λ trans.
        read_all (pos_part timecnt) read_uint8 >>= λ localtimes.
        read_localtimes (pos_part typecnt)
        >> push_transitions trans localtimes
        >> (read_bytes charcnt >>= λ text. set_abbreviation text))

unfoldable pub read_zone : Read (Unit {0})
unfolding read_body
read_zone = read_bytes (pos 4) >>= λ head.
    throw_if (not (bytes_eq head magic)) >> read_bytes (pos 1) >> read_bytes (pos 15) >> read_body

-- The `try` block with its handler.
unfoldable pub read_time_zone_file : Option Bytes → Data → Result (Bool × Data)
unfolding read_zone
read_time_zone_file none d = ok (true, d)
read_time_zone_file (some file) d = elim (read_zone file d) [
  | got a rest d' ↦ ok (true, d')
  | thrown d' ↦ ok (true, d')
  | broken fault ↦ err fault
]

abbrev pub no_data : Data
no_data = record { transitions = []; localtimes = []; abbreviation = [] }

-- The constructor from a file: the data, or none.
unfoldable pub new_time_zone : Option Bytes → Result (Option Data)
unfolding read_time_zone_file
new_time_zone file = elim (read_time_zone_file file no_data) [
  | ok (done, d) ↦ ok (if done then some d else none)
  | err fault ↦ err fault
]
