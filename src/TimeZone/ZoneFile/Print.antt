-- ===== src/TimeZone/ZoneFile/Print.antt =====
-- The bytes of a zone file, as tzfile(5) lays them out, and what the reader's steps make of them.
use event_loop.Prelude.{
  ℕ, ◌-◌, ◌^◌, ◌<◌, ◌≡◌, refl, sym, ap, ◌∙◌, Bool, true, false, not, List, [], ◌∷◌, ◌++◌,
  append_assoc, append-nil, length, length-append, take, drop, take-append_self, drop-append_self,
  leb, le→leb, ◌==◌, if◌then◌else◌, ℤ, pos, negsuc, arith,
}
use event_loop.Endian.{to_bytes, of_bytes, host_to_network32, network_to_host32, swap_bytes}
use event_loop.Endian.RoundTrip.{length-to_bytes, to_bytes-swap_bytes, swap_bytes-of_bytes}
use event_loop.Http.Request.{Bytes}
use event_loop.TimeZone.{Localtime, Data}
use event_loop.TimeZone.ZoneFile.{
  Read, got, ◌>>=◌, to_int32, read_bytes, read_int32, read_uint8, read_all, read_localtimes,
}

abbrev pub IsInt32 : ℤ → Type 0
IsInt32 (pos n) = n < 0x80000000
IsInt32 (negsuc n) = n < 0x80000000

abbrev pub of_int32 : ℤ → ℕ
of_int32 (pos n) = n
of_int32 (negsuc n) = 0xffffffff - n

unfoldable pub print_int32 : ℤ → Bytes
print_int32 z = to_bytes 4 (host_to_network32 (of_int32 z))

of_int32_range : (z : ℤ) → IsInt32 z → of_int32 z < 256 ^ 4
of_int32_range (pos n) h = omega arith
of_int32_range (negsuc n) h = omega arith

to_int32-of_int32 : (z : ℤ) → IsInt32 z → to_int32 (of_int32 z) ≡ z
to_int32-of_int32 (pos n) h = ground arith
to_int32-of_int32 (negsuc n) h = ground arith

-- A step that gets a value hands it to the next one.
pub bind-got {ℓ κ} :
    {A : Type ℓ} {B : Type κ} (m : Read A) (f : A → Read B) {bytes rest : Bytes} {d d' : Data}
    {a : A}
    → m bytes d ≡ got a rest d'
    → (m >>= f) bytes d ≡ f a rest d'
bind-got m f e = rw (◌>>=◌, e) refl

-- Bytes of a known length before a rest.
pub read_bytes-append :
    (xs rest : Bytes) (d : Data) (n : ℕ)
    → length xs ≡ n
    → read_bytes (pos n) (xs ++ rest) d ≡ got xs rest d
unfolding read_bytes
read_bytes-append xs rest d n e =
    let enough : leb n (length (xs ++ rest)) ≡ true =
      le→leb _ _ (omega (arith, length-append xs rest, e)) in
    let front : take n (xs ++ rest) ≡ xs =
      ap (λ k. take k (xs ++ rest)) (sym e) ∙ take-append_self xs rest in
    let back : drop n (xs ++ rest) ≡ rest =
      ap (λ k. drop k (xs ++ rest)) (sym e) ∙ drop-append_self xs rest in
    rw (enough, front, back) refl

pub read_int32-print :
    (z : ℤ) (rest : Bytes) (d : Data)
    → IsInt32 z
    → read_int32 (print_int32 z ++ rest) d ≡ got z rest d
unfolding read_int32 print_int32 host_to_network32 network_to_host32
read_int32-print z rest d h =
    let four = length-to_bytes 4 (host_to_network32 (of_int32 z)) in
    let xs : Bytes = to_bytes 4 (host_to_network32 (of_int32 z)) in
    let enough : leb 4 (length (xs ++ rest)) ≡ true =
      le→leb _ _ (omega (arith, length-append xs rest, four)) in
    let front : take 4 (xs ++ rest) ≡ xs =
      ap (λ k. take k (xs ++ rest)) (sym four) ∙ take-append_self xs rest in
    let back : drop 4 (xs ++ rest) ≡ rest =
      ap (λ k. drop k (xs ++ rest)) (sym four) ∙ drop-append_self xs rest in
    let value : to_int32 (network_to_host32 (of_bytes xs)) ≡ z =
      ap (λ b. to_int32 (swap_bytes 4 (of_bytes b))) (to_bytes-swap_bytes 4 (of_int32 z))
      ∙ ap to_int32 (swap_bytes-of_bytes 4 (of_int32 z) (of_int32_range z h))
      ∙ to_int32-of_int32 z h in
    rw (enough, front, back, value) refl

-- Lists of words and of bytes, and the local times.
abbrev pub AreInt32 : List ℤ → Type 0
AreInt32 [] = Unit {0}
AreInt32 (z ∷ zs) = IsInt32 z × AreInt32 zs

unfoldable pub print_int32s : List ℤ → Bytes → Bytes
print_int32s [] rest = rest
print_int32s (z ∷ zs) rest = print_int32 z ++ print_int32s zs rest

pub read_all-print_int32s :
    (zs : List ℤ) (rest : Bytes) (d : Data)
    → AreInt32 zs
    → read_all (length zs) read_int32 (print_int32s zs rest) d ≡ got zs rest d
unfolding read_all print_int32s
read_all-print_int32s [] rest d h = refl
read_all-print_int32s (z ∷ zs) rest d (h, hs) =
    bind-got read_int32 _ (read_int32-print z (print_int32s zs rest) d h)
    ∙ bind-got (read_all (length zs) read_int32) _ (read_all-print_int32s zs rest d hs)

pub read_all-bytes :
    (bs rest : Bytes) (d : Data) → read_all (length bs) read_uint8 (bs ++ rest) d ≡ got bs rest d
unfolding read_all read_uint8
read_all-bytes [] rest d = refl
read_all-bytes (b ∷ bs) rest d =
    bind-got (read_all (length bs) read_uint8) _ (read_all-bytes bs rest d)

abbrev pub AreLocaltimes : List Localtime → Type 0
AreLocaltimes [] = Unit {0}
AreLocaltimes (l ∷ ls) = IsInt32 l.gmt_offset × AreLocaltimes ls

unfoldable pub print_localtimes : List Localtime → Bytes → Bytes
print_localtimes [] rest = rest
print_localtimes (l ∷ ls) rest =
    print_int32 l.gmt_offset ++ (if l.is_dst then 1 else 0) ∷ l.arrb_idx ∷ print_localtimes ls rest

flag : (b : Bool) → not ((if b then 1 else 0) == 0) ≡ b
flag true = refl
flag false = refl

pub read_localtimes-print :
    (ls : List Localtime) (rest : Bytes) (d : Data)
    → AreLocaltimes ls
    → read_localtimes (length ls) (print_localtimes ls rest) d
      ≡ got tt rest (record d { localtimes = d.localtimes ++ ls })
unfolding read_localtimes print_localtimes read_uint8
read_localtimes-print [] rest d h =
    ap (λ ls. got tt rest (record d { localtimes = ls })) (sym (append-nil d.localtimes))
read_localtimes-print (l ∷ ls) rest d (h, hs) =
    bind-got read_int32 _ (read_int32-print l.gmt_offset _ d h)
    ∙ (ap
          (λ b.
            read_localtimes (length ls) (print_localtimes ls rest)
              (record d { localtimes = d.localtimes ++ record l { is_dst = b } ∷ [] }))
          (flag l.is_dst)
        ∙ (read_localtimes-print ls rest (record d { localtimes = d.localtimes ++ l ∷ [] }) hs
            ∙ ap (λ x. got tt rest (record d { localtimes = x }))
                (append_assoc d.localtimes (l ∷ []) ls)))
