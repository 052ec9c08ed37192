-- ===== src/TcpServer/Table.antt =====
-- TcpServer.cpp: what newConnection and removeConnectionInLoop do to the table.
use event_loop.Prelude.{
  ℕ, ◌+◌, ◌≤◌, ◌<◌, ◌≡◌, refl, sym, ap, subst, ◌∙◌, inl, inr, false, none, some, List, [], ◌∷◌,
  ◌++◌, length, Bool-cases, ok, arith,
}
use event_loop.Http.Request.{Bytes, bytes_eq}
use event_loop.Http.Request.Headers.{bytes_eq-eq, bytes_eq_self}
use event_loop.EventLoopThreadPool.{EventLoopThreadPool, get_next_loop}
use event_loop.TcpServer.{
  Connection, TcpServer, name_of, put, erase, count, lookup, new_connection,
  remove_connection_in_loop,
}
use event_loop.TcpServer.Names.{max_id, different_names}

module _ {ℓ} {L : Type ℓ} (base ip : Bytes) where
  -- The names of the table have numbers below `n`, each below those before it.
  abbrev pub IsNumbered : ℕ → List (Bytes × Connection L) → Type 0
  IsNumbered n [] = Unit {0}
  IsNumbered n (e ∷ es) = (i : ℕ) × ((i < n) × ((e.0 ≡ name_of base ip i) × IsNumbered i es))

  pub mono-IsNumbered :
      (m n : ℕ) (es : List (Bytes × Connection L)) → m ≤ n → IsNumbered m es → IsNumbered n es
  mono-IsNumbered m n [] h v = v
  mono-IsNumbered m n (e ∷ es) h (i, (k, (g, v))) = (i, (omega (arith, h, k), (g, v)))

  pub erase-IsNumbered :
      (n : ℕ) (k : Bytes) (es : List (Bytes × Connection L))
      → IsNumbered n es
      → IsNumbered n (erase k es)
  unfolding erase
  erase-IsNumbered n k [] v = v
  erase-IsNumbered n k (e ∷ es) (i, (h, (g, v))) = elim (Bool-cases (bytes_eq k e.0)) [
    | inl q ↦ rw q (mono-IsNumbered i n (erase k es) (omega (arith, h)) (erase-IsNumbered i k es v))
    | inr q ↦ rw q (i, (h, (g, erase-IsNumbered i k es v)))
  ]

  module _ (short : length ip ≤ 50) where
    -- No name of the table is that of a number that is not below.
    pub fresh_lem :
        (n m : ℕ) (es : List (Bytes × Connection L))
        → n ≤ m
        → m < max_id
        → IsNumbered n es
        → (lookup (name_of base ip m) es ≡ none)
          × ((count (name_of base ip m) es ≡ 0) × (erase (name_of base ip m) es ≡ es))
    unfolding lookup count erase
    fresh_lem n m [] h k v = (refl, (refl, refl))
    fresh_lem n m (e ∷ es) h k (i, (less, (g, v))) =
        let (a, (b, c)) = fresh_lem i m es (omega (arith, less, h)) k v in
        let different : bytes_eq (name_of base ip m) e.0 ≡ false =
          ap (bytes_eq (name_of base ip m)) g
          ∙ different_names base ip short i m (omega (arith, less, h)) k in
        rw different (a, (omega (arith, b), ap (λ es'. e ∷ es') c))

    -- A name that is found is there once.
    pub count_found :
        (n : ℕ) (k : Bytes) (c : Connection L) (es : List (Bytes × Connection L))
        → n ≤ max_id
        → IsNumbered n es
        → lookup k es ≡ some c
        → count k es ≡ 1
    unfolding lookup count
    count_found n k c [] h v e = absurd (ground arith)
    count_found n k c (x ∷ es) h (i, (less, (g, v))) e = elim (Bool-cases (bytes_eq k x.0)) [
      | inl q ↦
          let same : k ≡ name_of base ip i = bytes_eq-eq k x.0 q ∙ g in
          let (a, (b, d)) = fresh_lem i i es (omega arith) (omega (arith, less, h)) v in
          let rest : count k es ≡ 0 = ap (λ k'. count k' es) same ∙ b in ground (arith, q, rest)
      | inr q ↦
          let rest = count_found i k c es (omega (arith, less, h)) v (ground (arith, e, q)) in
          ground (arith, q, rest)
    ]

  pub lookup-erase_self :
      (k : Bytes) (es : List (Bytes × Connection L)) → lookup k (erase k es) ≡ none
  unfolding lookup erase
  lookup-erase_self k [] = refl
  lookup-erase_self k (e ∷ es) = elim (Bool-cases (bytes_eq k e.0)) [
    | inl q ↦ ground (arith, q, lookup-erase_self k es)
    | inr q ↦ ground (arith, q, lookup-erase_self k es)
  ]

  lookup-erase_other :
      (k k' : Bytes) (es : List (Bytes × Connection L))
      → bytes_eq k' k ≡ false
      → lookup k' (erase k es) ≡ lookup k' es
  unfolding lookup erase
  lookup-erase_other k k' [] h = refl
  lookup-erase_other k k' (e ∷ es) h = elim (Bool-cases (bytes_eq k e.0)) [
    | inl q ↦
        let other : bytes_eq k' e.0 ≡ false = ap (bytes_eq k') (sym (bytes_eq-eq k e.0 q)) ∙ h in
        ground (arith, q, other, lookup-erase_other k k' es h)
    | inr q ↦ ground (arith, q, lookup-erase_other k k' es h)
  ]

module _ {ℓ} {L : Type ℓ} where
  -- The name of the next connection.
  abbrev pub next_name : TcpServer L → Bytes
  next_name s = name_of s.server_name s.ip_port s.next_conn_id

  abbrev pub IsTable : TcpServer L → Type 0
  IsTable s = IsNumbered s.server_name s.ip_port s.next_conn_id s.connections

  -- If the address has at most fifty characters, fewer than 2 ^ 31 connections were made, the table has names
  -- of smaller numbers only, and the pool gives a loop: newConnection succeeds. The name was not in
  -- the table; now it leads to a connection of that name, of the loop and the socket, whose establishing
  -- is handed over once; every other name leads where it did, and the table has names of smaller
  -- numbers only.
  pub new_connection_lem :
      (s : TcpServer L) (sockfd : ℕ) (pool : EventLoopThreadPool L) (loop : L)
      → length s.ip_port ≤ 50
      → s.next_conn_id < max_id
      → IsTable s
      → get_next_loop s.pool ≡ ok (pool, loop)
      → (d : TcpServer L) × ((c : Connection L) × ((new_connection s sockfd ≡ ok d)
            × ((lookup (next_name s) s.connections ≡ none)
                × ((lookup (next_name s) d.connections ≡ some c)
                    × (((c.conn_name ≡ next_name s) × ((c.io_loop ≡ loop) × (c.socket ≡ sockfd)))
                        × ((d.established ≡ s.established ++ c ∷ [])
                            × (((k : Bytes)
                                  → bytes_eq k (next_name s) ≡ false
                                  → lookup k d.connections ≡ lookup k s.connections)
                                × IsTable d)))))))
  unfolding new_connection put lookup
  new_connection_lem s sockfd pool loop short few v e =
      let (a, (b, g)) =
        fresh_lem s.server_name s.ip_port short s.next_conn_id s.next_conn_id s.connections
          (omega arith) few v in
      let c : Connection L = record { conn_name = next_name s; io_loop = loop; socket = sockfd } in
      let d : TcpServer L = record s {
        pool = pool;
        next_conn_id = s.next_conn_id + 1;
        connections = put (next_name s) c s.connections;
        established = s.established ++ c ∷ [];
      } in
      (
        d,
        (
          c,
          (
            rw e refl,
            (
              a,
              (
                rw (bytes_eq_self (next_name s)) refl,
                (
                  (refl, (refl, refl)),
                  (
                    refl,
                    (
                      (λ k h. rw h (ap (lookup k) g)),
                      (
                        s.next_conn_id,
                        (
                          omega arith,
                          (
                            refl,
                            subst (IsNumbered s.server_name s.ip_port s.next_conn_id) (sym g) v,
                          ),
                        ),
                      ),
                    ),
                  ),
                ),
              ),
            ),
          ),
        ),
      )

  -- For a connection that is in such a table under its name, removeConnectionInLoop fails no assertion. The
  -- name then leads nowhere, every other one where it did, and the destroying of the connection is
  -- handed over once.
  pub remove_connection_in_loop_lem :
      (s : TcpServer L) (c : Connection L)
      → length s.ip_port ≤ 50
      → s.next_conn_id ≤ max_id
      → IsTable s
      → lookup c.conn_name s.connections ≡ some c
      → (d : TcpServer L) × ((remove_connection_in_loop s c ≡ ok d)
          × ((lookup c.conn_name d.connections ≡ none)
              × ((d.destroyed ≡ s.destroyed ++ c ∷ [])
                  × (((k : Bytes)
                        → bytes_eq k c.conn_name ≡ false
                        → lookup k d.connections ≡ lookup k s.connections)
                      × IsTable d))))
  unfolding remove_connection_in_loop
  remove_connection_in_loop_lem s c short few v e =
      let one : count c.conn_name s.connections ≡ 1 =
        count_found s.server_name s.ip_port short s.next_conn_id c.conn_name c s.connections few v
          e in
      let d : TcpServer L = record s {
        connections = erase c.conn_name s.connections;
        destroyed = s.destroyed ++ c ∷ [];
      } in
      (
        d,
        (
          ground (arith, one),
          (
            lookup-erase_self s.server_name s.ip_port c.conn_name s.connections,
            (
              refl,
              (
                (λ k. lookup-erase_other s.server_name s.ip_port c.conn_name k s.connections),
                erase-IsNumbered s.server_name s.ip_port s.next_conn_id c.conn_name s.connections v,
              ),
            ),
          ),
        ),
      )
