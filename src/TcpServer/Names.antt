-- ===== src/TcpServer/Names.antt =====
-- TcpServer.cpp: the names of connections, and the table of them.
use event_loop.Prelude.{
  ℕ, ◌≤◌, ◌<◌, ◌≡◌, sym, ap, ◌∙◌, inl, inr, false, [], ◌∷◌, ◌++◌, length, length-append, take_all,
  Bool-cases, arith,
}
use event_loop.Http.Request.{Bytes, bytes_eq}
use event_loop.Http.Request.Headers.{bytes_eq-eq}
use event_loop.Http.Response.{decimal}
use event_loop.Http.Response.Decimal.{read_decimal, read_decimal-decimal, power_ten, length-decimal}
use event_loop.TcpServer.{name_of}

append_cancel : (xs : Bytes) {ys zs : Bytes} → xs ++ ys ≡ xs ++ zs → ys ≡ zs
append_cancel [] e = e
append_cancel (x ∷ xs) e = append_cancel xs (ground arith)

-- The numbers of connections are below two to the 31.
abbrev pub max_id : ℕ
max_id = 0x80000000

decimal-eq : (m n : ℕ) → m < max_id → n < max_id → decimal m ≡ decimal n → m ≡ n
decimal-eq m n h k e =
    sym (read_decimal-decimal m (omega arith))
    ∙ (ap (read_decimal 0) e ∙ read_decimal-decimal n (omega arith))

module _ (base ip : Bytes) (short : length ip ≤ 50) where
  -- The text is not cut.
  name_text : (n : ℕ) → n < max_id → name_of base ip n ≡ base ++ (45 ∷ (ip ++ 35 ∷ decimal n))
  unfolding power_ten
  name_text n h =
      let digits : length (decimal n) ≤ 10 = length-decimal 9 n (omega arith) in
      ap (λ t. base ++ t)
        (take_all 63 _ (omega (arith, length-append ip (35 ∷ decimal n), digits, short)))

  name_of-eq : (m n : ℕ) → m < max_id → n < max_id → name_of base ip m ≡ name_of base ip n → m ≡ n
  name_of-eq m n h k e =
      let texts = append_cancel base (sym (name_text m h) ∙ (e ∙ name_text n k)) in
      let tails = append_cancel (45 ∷ ip) texts in
      decimal-eq m n h k (append_cancel (35 ∷ []) tails)

  pub different_names :
      (m n : ℕ) → m < n → n < max_id → bytes_eq (name_of base ip n) (name_of base ip m) ≡ false
  different_names m n h k = elim (Bool-cases (bytes_eq (name_of base ip n) (name_of base ip m))) [
    | inl e ↦ absurd (omega (arith, h, name_of-eq n m k (omega (arith, h, k)) (bytes_eq-eq _ _ e)))
    | inr e ↦ e
  ]
