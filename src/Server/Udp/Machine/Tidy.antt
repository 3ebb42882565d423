-- ===== src/Server/Udp/Machine/Tidy.antt =====
-- The tables of pending sessions in every state that a proxy can reach.
use rfrpv.Prelude.{
  ℕ, ◌≤◌, ◌<◌, ◌≡◌, refl, ap, ◌∙◌, Option, none, some, List, [], ◌∷◌, Bytes, nat_eq, nat_beq,
  nat_beq_iff, arith, is_some, Bool-cases, inl, inr, leb, length, false,
}
use rfrpv.Map.{Map, get, insert, get-insert, get-remove}
use rfrpv.Map.Sizes.{Distinct, insert-Distinct, remove-Distinct, length-insert, length-remove-le}
use rfrpv.Constants.{max_pending_udp_sessions}
use rfrpv.Server.State.{ServerState, next_work_id}
use rfrpv.Server.Udp.{
  Addr, UdpProxy, UdpSession, PendingUdp, handle_datagram, session_datagram, pending_datagram,
  first_datagram, open_pending, offer, remove_pending, taken_pending, discard_pending, discard_each,
  sweep, overdue, start_udp_work, pair, take_batch, touch_session, take_queue, touched,
  end_udp_work, new_udp_proxy,
}
use rfrpv.Server.Udp.Links.{Linked, FreshId, Linked-insert, taken_pending-Linked, offer-tables}
use rfrpv.Server.Udp.Machine.{UdpStep, UdpReachable}

-- The two tables are the inverse of each other: a pending client has one entry, and every entry is
-- the one of its client. There are no more entries than the limit, each under its own work id.
pub record IsTidy (by_client : Map Addr ℕ) (by_id : Map ℕ PendingUdp) : Type 0 where
  pub linked : Linked by_client by_id
  pub backed : (id : ℕ) (p : PendingUdp) → get id by_id ≡ some p → get p.client by_client ≡ some id
  pub distinct : Distinct by_id
  pub bounded : length by_id ≤ max_pending_udp_sessions

abbrev pub TidyProxy : UdpProxy → Type 0
TidyProxy u = IsTidy u.pending_client u.pending_by_id

insert-IsTidy :
    (m : Map Addr ℕ) (n : Map ℕ PendingUdp) (peer : Addr) (id now : ℕ)
    → IsTidy m n
    → get id n ≡ none
    → get peer m ≡ none
    → length n < max_pending_udp_sessions
    → IsTidy (insert peer id m) (insert id (record { client = peer; created = now }) n)
insert-IsTidy m n peer id now t fresh new room =
    let p : PendingUdp = record { client = peer; created = now } in
    record {
      linked = Linked-insert m n peer id p t.linked fresh refl;
      backed = λ j q h. elim (Bool-cases (nat_beq id j)) [
        | inl e ↦
            let same : q.client ≡ peer = ground (arith, get-insert id j p n) in
            ground
              (arith, get-insert peer q.client id m, nat_beq_iff peer q.client, nat_beq_iff id j)
        | inr e ↦
            let old = t.backed j q (ground (arith, get-insert id j p n)) in
            ground (arith, get-insert peer q.client id m, nat_beq_iff peer q.client)
      ];
      distinct = insert-Distinct id p n t.distinct;
      bounded = ground (arith, length-insert id p n t.distinct);
    }

taken_pending-TidyProxy :
    (id : ℕ) (o : Option PendingUdp) (u : UdpProxy)
    → get id u.pending_by_id ≡ o
    → TidyProxy u
    → TidyProxy (taken_pending id o u)
taken_pending-TidyProxy id none u e t = t
taken_pending-TidyProxy id (some p) u e t = record {
  linked = taken_pending-Linked id (some p) u e t.linked;
  backed = λ j q h.
      (let before : get j u.pending_by_id ≡ some q =
          ground (arith, get-remove id j u.pending_by_id) in
        let apart : nat_beq id j ≡ false = ground (arith, get-remove id j u.pending_by_id) in
        let its = t.backed j q before in
        let own = t.backed id p e in
        elim (Bool-cases (nat_beq p.client q.client)) [
          | inl c ↦
              let same : get p.client u.pending_client ≡ some j =
                ap (λ k. get k u.pending_client) ((nat_beq_iff p.client q.client).0 c) ∙ its in
              absurd (ground (arith, own, same, nat_beq_iff id j))
          | inr c ↦ ground (arith, its, get-remove p.client q.client u.pending_client)
        ]);
  distinct = remove-Distinct id u.pending_by_id t.distinct;
  bounded = omega (arith, length-remove-le id u.pending_by_id, t.bounded);
}

discard_pending-TidyProxy : (id : ℕ) (u : UdpProxy) → TidyProxy u → TidyProxy (discard_pending id u)
unfolding discard_pending remove_pending
discard_pending-TidyProxy id u t =
    let kept = taken_pending-TidyProxy id (get id u.pending_by_id) u refl t in
    elim (Bool-cases (is_some (get id u.pending_by_id))) [ inl e ↦ rw e kept | inr e ↦ rw e kept ]

discard_each-TidyProxy :
    (ids : List ℕ) (u : UdpProxy) → TidyProxy u → TidyProxy (discard_each ids u)
unfolding discard_each
discard_each-TidyProxy [] u t = t
discard_each-TidyProxy (id ∷ ids) u t =
    discard_each-TidyProxy ids (discard_pending id u) (discard_pending-TidyProxy id u t)

offer-TidyProxy : (c : ℕ) (d : Bytes) (u : UdpProxy) → TidyProxy u → TidyProxy (offer c d u)
offer-TidyProxy c d u t = let same = offer-tables c d u in rw (same.0, same.1) t

first_datagram-TidyProxy :
    (peer : Addr) (d : Bytes) (now : ℕ) (u : UdpProxy) (s : ServerState)
    → FreshId s u
    → get peer u.pending_client ≡ none
    → TidyProxy u
    → TidyProxy (first_datagram peer d now u s).1
unfolding first_datagram open_pending
first_datagram-TidyProxy peer d now u s fresh new t =
    elim (Bool-cases (leb max_pending_udp_sessions (length u.pending_by_id))) [
      | inl e ↦ rw e t
      | inr e ↦ rw e (
          insert-IsTidy u.pending_client u.pending_by_id peer (next_work_id s).0 now t fresh new
            (ground arith))
    ]

pending_datagram-TidyProxy :
    (peer : Addr) (d : Bytes) (now : ℕ) (o : Option ℕ) (u : UdpProxy) (s : ServerState)
    → get peer u.pending_client ≡ o
    → FreshId s u
    → TidyProxy u
    → TidyProxy (pending_datagram peer d now o u s).1
pending_datagram-TidyProxy peer d now none u s e fresh t =
    first_datagram-TidyProxy peer d now u s fresh e t
pending_datagram-TidyProxy peer d now (some id) u s e fresh t =
    elim (Bool-cases (is_some (get id u.pending_by_id))) [
      | inl k ↦ rw k (offer-TidyProxy id d u t)
      | inr k ↦ rw k t
    ]

session_datagram-TidyProxy :
    (peer : Addr) (d : Bytes) (now : ℕ) (o : Option UdpSession) (u : UdpProxy) (s : ServerState)
    → FreshId s u
    → TidyProxy u
    → TidyProxy (session_datagram peer d now o u s).1
session_datagram-TidyProxy peer d now none u s fresh t =
    pending_datagram-TidyProxy peer d now (get peer u.pending_client) u s refl fresh t
session_datagram-TidyProxy peer d now (some x) u s fresh t = offer-TidyProxy x.channel d _ t

pair-TidyProxy :
    (id now : ℕ) (o : Option PendingUdp) (u : UdpProxy)
    → TidyProxy u
    → TidyProxy (pair id now o u).1
pair-TidyProxy id now none u t = t
pair-TidyProxy id now (some p) u t = t

take_queue-TidyProxy :
    (c : ℕ) (o : Option (List Bytes)) (u : UdpProxy) → TidyProxy u → TidyProxy (take_queue c o u).1
take_queue-TidyProxy c none u t = t
take_queue-TidyProxy c (some q) u t = t

touched-TidyProxy :
    (peer : Addr) (now : ℕ) (o : Option UdpSession) (u : UdpProxy)
    → TidyProxy u
    → TidyProxy (touched peer now o u)
touched-TidyProxy peer now none u t = t
touched-TidyProxy peer now (some x) u t = t

take_batch-TidyProxy :
    (c : ℕ) (peer : Addr) (now : ℕ) (u : UdpProxy)
    → TidyProxy u
    → TidyProxy (take_batch c peer now u).1
unfolding take_batch touch_session
take_batch-TidyProxy c peer now u t =
    let u' = (take_queue c (get c u.channels) u).1 in
    touched-TidyProxy peer now (get peer u'.sessions) u'
      (take_queue-TidyProxy c (get c u.channels) u t)

UdpStep-TidyProxy : {u v : UdpProxy} → UdpStep u v → TidyProxy u → TidyProxy v
unfolding handle_datagram sweep start_udp_work remove_pending end_udp_work
UdpStep-TidyProxy (UdpStep.receives peer d now u s fresh) t =
    session_datagram-TidyProxy peer d now (get peer u.sessions) u s fresh t
UdpStep-TidyProxy (UdpStep.unsent id u) t = discard_pending-TidyProxy id u t
UdpStep-TidyProxy (UdpStep.sweeps now u) t =
    discard_each-TidyProxy (overdue now u.pending_timeout u.pending_by_id) _ t
UdpStep-TidyProxy (UdpStep.starts id now u) t =
    let o = get id u.pending_by_id in
    pair-TidyProxy id now o (taken_pending id o u) (taken_pending-TidyProxy id o u refl t)
UdpStep-TidyProxy (UdpStep.takes c peer now u) t = take_batch-TidyProxy c peer now u t
UdpStep-TidyProxy (UdpStep.ends c peer u) t = t

-- In every state that a UDP proxy can reach, by datagrams, requests for work connections that
-- cannot be sent, sweeps, work connections and their ends in any order, the two tables of pending sessions are the inverse of each other, no work id comes
-- twice, and there are no more pending sessions than the limit, whatever source addresses the
-- datagrams give. No work id is given out that is still pending.
pub UdpReachable-TidyProxy : {u : UdpProxy} → UdpReachable u → TidyProxy u
unfolding new_udp_proxy get
UdpReachable-TidyProxy (UdpReachable.started timeout) = record {
  linked = λ c id h. cc;
  backed = λ id p h. cc;
  distinct = tt;
  bounded = omega arith;
}
UdpReachable-TidyProxy (UdpReachable.stepped r step) =
    UdpStep-TidyProxy step (UdpReachable-TidyProxy r)
