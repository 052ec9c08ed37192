-- ===== src/TcpServer/Serving.antt =====
-- TcpServer.cpp: no connection is lost or destroyed twice, while they are made and removed.
use event_loop.Prelude.{
  ℕ, suc, ◌+◌, ◌≤◌, ◌<◌, ◌≡◌, refl, sym, ap, subst, ◌∙◌, inl, inr, true, some, List, [], ◌∷◌, ◌++◌,
  map, reverse, append_assoc, append-nil, length, length-append, ok, arith, Bool-cases,
  Result-cases,
}
use mathlib.Core.List.{Perm, perm_middle, map-append, reverse-cons}
use mathlib.Core.List.Perm
use event_loop.Http.Request.{Bytes, bytes_eq}
use event_loop.EventLoopThreadPool.{EventLoopThreadPool, get_next_loop}
use event_loop.Acceptor.{Acceptor}
use event_loop.Acceptor.Descriptors.{IsAccounted}
use event_loop.TcpServer.{
  Connection, TcpServer, erase, count, lookup, value, put, new_connection,
  remove_connection_in_loop,
}
use event_loop.TcpServer.Names.{max_id}
use event_loop.TcpServer.Table.{IsTable, next_name, fresh_lem, count_found, erase-IsNumbered}

abbrev pub socket_of {ℓ} : {L : Type ℓ} → Connection L → ℕ
socket_of c = c.socket

module _ {ℓ} {L : Type ℓ} where
  count_none : (k : Bytes) (es : List (Bytes × Connection L)) → count k es ≡ 0 → erase k es ≡ es
  unfolding count erase
  count_none k [] h = refl
  count_none k (e ∷ es) h = elim (Bool-cases (bytes_eq k e.0)) [
    | inl q ↦ absurd (ground arith)
    | inr q ↦ rw q (ap (λ es'. e ∷ es') (count_none k es (ground arith)))
  ]

  -- What is erased is one entry of the table.
  erased-perm :
      (k : Bytes) (c : Connection L) (es : List (Bytes × Connection L))
      → count k es ≡ 1
      → lookup k es ≡ some c
      → Perm (map value es) (c ∷ map value (erase k es))
  unfolding count erase lookup
  erased-perm k c [] one found = absurd (ground arith)
  erased-perm k c (e ∷ es) one found = elim (Bool-cases (bytes_eq k e.0)) [
    | inl q ↦
        let same : e.1 ≡ c = ground arith in
        let rest : erase k es ≡ es = count_none k es (ground arith) in
        rw (q, rest)
          (subst (λ x. Perm (e.1 ∷ map value es) (x ∷ map value es)) same
            (Perm.refl (e.1 ∷ map value es)))
    | inr q ↦ rw q (
        Perm.trans (Perm.cons e.1 (erased-perm k c es (ground arith) (ground arith)))
          (Perm.swap c e.1 (map value (erase k es))))
  ]

  append_cons-perm :
      (c : Connection L) (xs ys zs : List (Connection L))
      → Perm xs (ys ++ zs)
      → Perm (xs ++ c ∷ []) (ys ++ (c ∷ zs))
  append_cons-perm c xs ys zs p = Perm.trans (Perm.append_right (c ∷ []) p) (
      Perm.trans
        (subst (λ ws. Perm ((ys ++ zs) ++ c ∷ []) (c ∷ ws)) (append-nil (ys ++ zs))
          (perm_middle (ys ++ zs) []))
        (Perm.symm (perm_middle ys zs)))

  -- Every connection that was made is in the table or was destroyed, once.
  pub record IsServing (s : TcpServer L) : Type ℓ where
    pub kept : Perm s.established (s.destroyed ++ map value s.connections)
    pub taken : map socket_of s.established ≡ reverse s.acceptor.passed
    pub descriptors : IsAccounted s.acceptor
    pub numbered : s.next_conn_id ≡ suc (length s.established)
    pub table : IsTable s
    pub short : length s.ip_port ≤ 50
    pub called_back : s.acceptor.has_callback ≡ true

  -- The server with one connection more, before the table is known to be one longer.
  with_connection : TcpServer L → Acceptor → EventLoopThreadPool L → L → ℕ → TcpServer L
  with_connection s a pool loop sockfd =
      let c : Connection L = record { conn_name = next_name s; io_loop = loop; socket = sockfd } in
      record s {
        acceptor = a;
        pool = pool;
        next_conn_id = s.next_conn_id + 1;
        connections = (next_name s, c) ∷ s.connections;
        established = s.established ++ c ∷ [];
      }

  with_connection-IsServing :
      (s : TcpServer L) (a : Acceptor) (pool : EventLoopThreadPool L) (loop : L) (sockfd : ℕ)
      → IsServing s
      → IsAccounted a
      → a.passed ≡ sockfd ∷ s.acceptor.passed
      → a.has_callback ≡ true
      → IsServing (with_connection s a pool loop sockfd)
  unfolding with_connection
  with_connection-IsServing s a pool loop sockfd v w p b =
      let c : Connection L = record { conn_name = next_name s; io_loop = loop; socket = sockfd } in
      record {
        kept = append_cons-perm c s.established s.destroyed (map value s.connections) v.kept;
        taken =
            map-append socket_of s.established (c ∷ [])
            ∙ ap (λ (xs : List ℕ). xs ++ sockfd ∷ []) v.taken
            ∙ sym (reverse-cons sockfd s.acceptor.passed)
            ∙ ap reverse (sym p);
        descriptors = w;
        numbered = omega (arith, v.numbered, length-append s.established (c ∷ []));
        table = (s.next_conn_id, (omega arith, (refl, v.table)));
        short = v.short;
        called_back = b;
      }

  pub new_connection-IsServing :
      (s : TcpServer L) (a : Acceptor) (sockfd : ℕ) {d : TcpServer L}
      → IsServing s
      → s.next_conn_id < max_id
      → IsAccounted a
      → a.passed ≡ sockfd ∷ s.acceptor.passed
      → a.has_callback ≡ true
      → new_connection (record s { acceptor = a }) sockfd ≡ ok d
      → IsServing d
  unfolding new_connection put with_connection
  new_connection-IsServing s a sockfd {d} v few w p b h =
      elim (Result-cases (get_next_loop s.pool)) [
        | inr (f, e) ↦ absurd (ground (arith, e, h))
        | inl (r, e) ↦
            let fresh =
              fresh_lem s.server_name s.ip_port v.short s.next_conn_id s.next_conn_id s.connections
                (omega arith) few v.table in
            let same : with_connection s a r.0 r.1 sockfd ≡ d = ground (arith, e, h, fresh) in
            subst IsServing same (with_connection-IsServing s a r.0 r.1 sockfd v w p b)
      ]

  pub remove_connection-IsServing :
      (s : TcpServer L) (c : Connection L) {d : TcpServer L}
      → IsServing s
      → s.next_conn_id ≤ max_id
      → lookup c.conn_name s.connections ≡ some c
      → remove_connection_in_loop s c ≡ ok d
      → IsServing d
  unfolding remove_connection_in_loop
  remove_connection-IsServing s c {d} v few found h =
      let one =
        count_found s.server_name s.ip_port v.short s.next_conn_id c.conn_name c s.connections few
          v.table found in
      let e : TcpServer L = record s {
        connections = erase c.conn_name s.connections;
        destroyed = s.destroyed ++ c ∷ [];
      } in
      let same : e ≡ d = ground (arith, one, h) in
      subst IsServing same (record {
        kept =
            subst (Perm s.established)
              (sym (append_assoc s.destroyed (c ∷ []) (map value e.connections)))
              (Perm.trans v.kept
                (Perm.append_left s.destroyed (erased-perm c.conn_name c s.connections one found)));
        taken = v.taken;
        descriptors = v.descriptors;
        numbered = v.numbered;
        table =
            erase-IsNumbered s.server_name s.ip_port s.next_conn_id c.conn_name s.connections
              v.table;
        short = v.short;
        called_back = v.called_back;
      })
