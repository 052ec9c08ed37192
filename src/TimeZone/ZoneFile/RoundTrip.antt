-- ===== src/TimeZone/ZoneFile/RoundTrip.antt =====
-- TimeZone.cpp: a zone that was printed is read back.
use event_loop.Prelude.{
  ℕ, suc, ◌<◌, ◌≡◌, refl, sym, ap, ◌∙◌, not, none, some, List, [], ◌∷◌, ◌++◌, append_assoc,
  append-nil, map, length, get_elem?, ok, ℤ, pos, ◌+ℤ◌,
}
use event_loop.Http.Request.{Bytes, bytes_eq}
use event_loop.TimeZone.{Transition, Localtime, Data}
use event_loop.TimeZone.Search.{get_elem_lem}
use event_loop.TimeZone.ZoneFile.{
  Read, got, ◌>>=◌, ◌>>◌, read_bytes, read_int32, read_uint8, read_all, read_localtimes,
  push_transition, push_transitions, set_abbreviation, magic, throw_if, read_body, read_zone,
  read_time_zone_file, new_time_zone, no_data,
}
use event_loop.TimeZone.ZoneFile.Print.{
  IsInt32, print_int32, bind-got, read_bytes-append, read_int32-print, AreInt32, print_int32s,
  read_all-print_int32s, read_all-bytes, AreLocaltimes, print_localtimes, read_localtimes-print,
}

-- A zone as a file has it: each change is a time and the number of a local time. `counts` are those that the
-- reader does not use.
pub record Zone : Type 0 where
  pub version : ℕ
  pub reserved : Bytes
  pub isgmtcnt : ℤ
  pub isstdcnt : ℤ
  pub leapcnt : ℤ
  pub changes : List (ℤ × ℕ)
  pub types : List Localtime
  pub text : Bytes

unfoldable pub print_zone : Zone → Bytes → Bytes
print_zone z rest =
    magic
    ++ ((z.version ∷ [])
        ++ (z.reserved
            ++ (print_int32 z.isgmtcnt
                ++ (print_int32 z.isstdcnt
                    ++ (print_int32 z.leapcnt
                        ++ (print_int32 (pos (length (map (λ c. c.0) z.changes)))
                            ++ (print_int32 (pos (length z.types))
                                ++ (print_int32 (pos (length z.text))
                                    ++ print_int32s (map (λ c. c.0) z.changes) (
                                        map (λ c. c.1) z.changes
                                        ++ print_localtimes z.types (z.text ++ rest))))))))))

-- The changes as transitions.
pub made : List Localtime → List (ℤ × ℕ) → List Transition
made ls [] = []
made ls (c ∷ cs) = elim (get_elem? ls c.1) [
  | none ↦ []
  | some l ↦
      record { gmttime = c.0; localtime = c.0 +ℤ l.gmt_offset; localtime_idx = c.1 } ∷ made ls cs
]

abbrev pub data_of : Zone → Data
data_of z = record {
  transitions = made z.types z.changes;
  localtimes = z.types;
  abbreviation = z.text;
}

abbrev pub AreNamed : List Localtime → List (ℤ × ℕ) → Type 0
AreNamed ls [] = Unit {0}
AreNamed ls (c ∷ cs) = (c.1 < length ls) × AreNamed ls cs

-- The numbers of a zone have room in the file, and each change names a local time.
pub record IsPrintable (z : Zone) : Type 0 where
  pub reserved_is : length z.reserved ≡ 15
  pub isgmtcnt_is : IsInt32 z.isgmtcnt
  pub isstdcnt_is : IsInt32 z.isstdcnt
  pub leapcnt_is : IsInt32 z.leapcnt
  pub times_are : AreInt32 (map (λ c. c.0) z.changes)
  pub offsets_are : AreLocaltimes z.types
  pub named : AreNamed z.types z.changes
  pub few_changes : length (map (λ c. c.0) z.changes) < 0x80000000
  pub few_types : length z.types < 0x80000000
  pub short : length z.text < 0x80000000

length-map_same : (cs : List (ℤ × ℕ)) → length (map (λ c. c.1) cs) ≡ length (map (λ c. c.0) cs)
length-map_same [] = refl
length-map_same (c ∷ cs) = ap suc (length-map_same cs)

made-cons :
    (ls : List Localtime) (c : ℤ × ℕ) (cs : List (ℤ × ℕ)) (l : Localtime)
    → get_elem? ls c.1 ≡ some l
    → made ls (c ∷ cs)
      ≡ record { gmttime = c.0; localtime = c.0 +ℤ l.gmt_offset; localtime_idx = c.1 } ∷ made ls cs
unfolding made
made-cons ls c cs l e = rw (made, e) refl

push_transitions_lem :
    (cs : List (ℤ × ℕ)) (rest : Bytes) (d : Data)
    → AreNamed d.localtimes cs
    → push_transitions (map (λ c. c.0) cs) (map (λ c. c.1) cs) rest d
      ≡ got tt rest (record d { transitions = d.transitions ++ made d.localtimes cs })
unfolding push_transitions made
push_transitions_lem [] rest d h =
    ap (λ ts. got tt rest (record d { transitions = ts })) (sym (append-nil d.transitions))
push_transitions_lem (c ∷ cs) rest d (h, hs) =
    let (l, e) = get_elem_lem d.localtimes c.1 h in
    let t : Transition = record {
      gmttime = c.0;
      localtime = c.0 +ℤ l.gmt_offset;
      localtime_idx = c.1;
    } in
    bind-got (push_transition c.0 c.1) _ (rw (push_transition, e) refl)
    ∙ (push_transitions_lem cs rest (record d { transitions = d.transitions ++ t ∷ [] }) hs
        ∙ (ap (λ ts. got tt rest (record d { transitions = ts }))
              (append_assoc d.transitions (t ∷ []) (made d.localtimes cs))
            ∙ ap (λ ts. got tt rest (record d { transitions = d.transitions ++ ts }))
                (sym (made-cons d.localtimes c cs l e))))

module _ (z : Zone) (v : IsPrintable z) (rest : Bytes) where
  abbrev times : List ℤ
  times = map (λ c. c.0) z.changes

  abbrev numbers : List ℕ
  numbers = map (λ c. c.1) z.changes

  -- The lists of the body, once the counts are known.
  lists_lem :
      (read_all (length times) read_int32 >>= λ trans.
      read_all (length times) read_uint8 >>= λ localtimes.
      read_localtimes (length z.types)
      >> push_transitions trans localtimes
      >> (read_bytes (pos (length z.text)) >>= λ text. set_abbreviation text))
        (print_int32s times (numbers ++ print_localtimes z.types (z.text ++ rest)))
        no_data
      ≡ got tt rest (data_of z)
  lists_lem =
      bind-got (read_all (length times) read_int32) _ (
        read_all-print_int32s times (numbers ++ print_localtimes z.types (z.text ++ rest)) no_data
          v.times_are)
      ∙ (bind-got (read_all (length times) read_uint8) _ bytes
          ∙ (bind-got (read_localtimes (length z.types) >> push_transitions times numbers) _ (
                bind-got (read_localtimes (length z.types)) _
                  (read_localtimes-print z.types (z.text ++ rest) no_data v.offsets_are)
                ∙ push_transitions_lem z.changes (z.text ++ rest)
                    (record no_data { localtimes = z.types }) v.named)
              ∙ bind-got (read_bytes (pos (length z.text))) _
                  (read_bytes-append z.text rest _ (length z.text) refl)))
    where
      bytes :
          read_all
            (length times)
            read_uint8
            (numbers ++ print_localtimes z.types (z.text ++ rest))
            no_data
          ≡ got numbers (print_localtimes z.types (z.text ++ rest)) no_data
      bytes =
          ap
            (λ n.
              read_all n read_uint8 (numbers ++ print_localtimes z.types (z.text ++ rest)) no_data)
            (sym (length-map_same z.changes))
          ∙ read_all-bytes numbers (print_localtimes z.types (z.text ++ rest)) no_data

  abbrev lists : Bytes
  lists = print_int32s times (numbers ++ print_localtimes z.types (z.text ++ rest))

  abbrev counts : Bytes
  counts =
      print_int32 z.isgmtcnt
      ++ (print_int32 z.isstdcnt
          ++ (print_int32 z.leapcnt
              ++ (print_int32 (pos (length times))
                  ++ (print_int32 (pos (length z.types))
                      ++ (print_int32 (pos (length z.text)) ++ lists)))))

  body_lem : read_body counts no_data ≡ got tt rest (data_of z)
  unfolding read_body
  body_lem =
      bind-got read_int32 _ (read_int32-print z.isgmtcnt _ no_data v.isgmtcnt_is)
      ∙ (bind-got read_int32 _ (read_int32-print z.isstdcnt _ no_data v.isstdcnt_is)
          ∙ (bind-got read_int32 _ (read_int32-print z.leapcnt _ no_data v.leapcnt_is)
              ∙ (bind-got read_int32 _
                    (read_int32-print (pos (length times)) _ no_data v.few_changes)
                  ∙ (bind-got read_int32 _
                        (read_int32-print (pos (length z.types)) _ no_data v.few_types)
                      ∙ (bind-got read_int32 _
                            (read_int32-print (pos (length z.text)) _ no_data v.short)
                          ∙ lists_lem)))))

  zone_lem : read_zone (print_zone z rest) no_data ≡ got tt rest (data_of z)
  unfolding read_zone print_zone bytes_eq
  zone_lem =
      let start : Read (Unit {0}) = throw_if (not (bytes_eq magic magic)) in
      let tail : Bytes = (z.version ∷ []) ++ (z.reserved ++ counts) in
      bind-got (read_bytes (pos 4))
        (λ head.
          throw_if (not (bytes_eq head magic))
          >> read_bytes (pos 1)
          >> read_bytes (pos 15)
          >> read_body)
        {bytes = magic ++ tail} {d = no_data} (read_bytes-append magic tail no_data 4 refl)
      ∙ (bind-got (start >> read_bytes (pos 1) >> read_bytes (pos 15)) (λ a. read_body)
            {bytes = tail} {d = no_data}
            (bind-got (start >> read_bytes (pos 1)) (λ a. read_bytes (pos 15)) {bytes = tail}
                {d = no_data}
                (read_bytes-append (z.version ∷ []) (z.reserved ++ counts) no_data 1 refl)
              ∙ read_bytes-append z.reserved counts no_data 15 v.reserved_is)
          ∙ body_lem)

  -- The bytes of a zone whose numbers have room in the file and whose changes name its local times, with
  -- anything behind them: the constructor makes of them the zone's local times and text, and each of
  -- its changes with its time in UTC, that time and its offset, and its number.
  pub new_time_zone-print_zone : new_time_zone (some (print_zone z rest)) ≡ ok (some (data_of z))
  unfolding new_time_zone read_time_zone_file
  new_time_zone-print_zone = rw (new_time_zone, zone_lem) refl
