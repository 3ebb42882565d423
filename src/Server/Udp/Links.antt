-- ===== src/Server/Udp/Links.antt =====
-- The two tables of pending sessions agree.
use rfrpv.Prelude.{
  ℕ, ◌≡◌, ◌≢◌, refl, sym, ap, ◌∙◌, Option, none, some, List, [], ◌∷◌, Bytes, nat_eq, nat_beq,
  nat_beq_iff, arith, is_some, Bool-cases, inl, inr, leb, length,
}
use rfrpv.Map.{Map, get, insert, get-insert, get-remove}
use rfrpv.Constants.{max_pending_udp_sessions}
use rfrpv.Server.State.{ServerState, next_work_id}
use rfrpv.Server.Udp.{
  Addr, UdpProxy, UdpSession, PendingUdp, handle_datagram, session_datagram, pending_datagram,
  first_datagram, open_pending, offer, send_to, remove_pending, taken_pending, discard_pending,
  discard_each, sweep, overdue, start_udp_work, pair,
}

-- A client's pending work id leads to an entry, and the entry to the client.
abbrev pub Linked : Map Addr ℕ → Map ℕ PendingUdp → Type 0
Linked by_client by_id =
    (c : Addr) (id : ℕ)
    → get c by_client ≡ some id
    → (p : PendingUdp) × (get id by_id ≡ some p) × (p.client ≡ c)

abbrev pub LinkedProxy : UdpProxy → Type 0
LinkedProxy u = Linked u.pending_client u.pending_by_id

some-eq {ℓ} : {A : Type ℓ} {a b : A} → some a ≡ some b → a ≡ b
some-eq h = cc

pub Linked-insert :
    (m : Map Addr ℕ) (n : Map ℕ PendingUdp) (peer : Addr) (id : ℕ) (p : PendingUdp)
    → Linked m n
    → get id n ≡ none
    → p.client ≡ peer
    → Linked (insert peer id m) (insert id p n)
Linked-insert m n peer id p l fresh own c j h = elim (Bool-cases (nat_beq peer c)) [
  | inl e ↦
      let same : j ≡ id = ground (arith, get-insert peer c id m) in
      (p, ground (arith, get-insert id j p n, nat_beq_iff id j), ground (arith, nat_beq_iff peer c))
  | inr e ↦
      let (q, found, client) = l c j (ground (arith, get-insert peer c id m)) in
      (q, ground (arith, get-insert id j p n, nat_beq_iff id j), client)
]

pub taken_pending-Linked :
    (id : ℕ) (o : Option PendingUdp) (u : UdpProxy)
    → get id u.pending_by_id ≡ o
    → LinkedProxy u
    → LinkedProxy (taken_pending id o u)
taken_pending-Linked id none u e l = l
taken_pending-Linked id (some p) u e l = λ c j h.
    let before : get c u.pending_client ≡ some j =
      ground (arith, get-remove p.client c u.pending_client) in
    let (q, found, client) = l c j before in
    let other : j ≢ id = λ same.
      (let is_p : q ≡ p = some-eq (sym found ∙ ap (λ k. get k u.pending_by_id) same ∙ e) in
        let own : p.client ≡ c = ap (λ (r : PendingUdp). r.client) (sym is_p) ∙ client in
        ground (
          arith,
          get-remove p.client c u.pending_client,
          nat_beq_iff j id,
          nat_beq_iff p.client c,
        )) in
    (q, ground (arith, get-remove id j u.pending_by_id, nat_beq_iff id j), client)

send_to-tables :
    (c : ℕ) (d : Bytes) (o : Option (List Bytes)) (u : UdpProxy)
    → ((send_to c d o u).pending_client ≡ u.pending_client)
      × ((send_to c d o u).pending_by_id ≡ u.pending_by_id)
send_to-tables c d none u = (refl, refl)
send_to-tables c d (some q) u = (ground arith, ground arith)

-- Offering a datagram to a channel leaves the two tables alone.
pub offer-tables :
    (c : ℕ) (d : Bytes) (u : UdpProxy)
    → ((offer c d u).pending_client ≡ u.pending_client)
      × ((offer c d u).pending_by_id ≡ u.pending_by_id)
unfolding offer
offer-tables c d u = send_to-tables c d (get c u.channels) u

discard_pending-Linked :
    (id : ℕ) (u : UdpProxy) → LinkedProxy u → LinkedProxy (discard_pending id u)
unfolding discard_pending remove_pending
discard_pending-Linked id u l = elim (Bool-cases (is_some (get id u.pending_by_id))) [
  | inl e ↦ rw e (taken_pending-Linked id (get id u.pending_by_id) u refl l)
  | inr e ↦ rw e (taken_pending-Linked id (get id u.pending_by_id) u refl l)
]

discard_each-Linked :
    (ids : List ℕ) (u : UdpProxy) → LinkedProxy u → LinkedProxy (discard_each ids u)
unfolding discard_each
discard_each-Linked [] u l = l
discard_each-Linked (id ∷ ids) u l =
    discard_each-Linked ids (discard_pending id u) (discard_pending-Linked id u l)

-- The sweep keeps the tables of pending sessions linked, if they were.
pub sweep-LinkedProxy : (now : ℕ) (u : UdpProxy) → LinkedProxy u → LinkedProxy (sweep now u)
unfolding sweep
sweep-LinkedProxy now u l = discard_each-Linked (overdue now u.pending_timeout u.pending_by_id) _ l

pair-tables :
    (id now : ℕ) (o : Option PendingUdp) (u : UdpProxy)
    → LinkedProxy u
    → LinkedProxy (pair id now o u).1
pair-tables id now none u l = l
pair-tables id now (some p) u l = l

-- The start of a work connection keeps the tables of pending sessions linked, if they were.
pub start_udp_work-LinkedProxy :
    (id now : ℕ) (u : UdpProxy) → LinkedProxy u → LinkedProxy (start_udp_work id now u).1
unfolding start_udp_work remove_pending
start_udp_work-LinkedProxy id now u l =
    let o = get id u.pending_by_id in
    pair-tables id now o (taken_pending id o u) (taken_pending-Linked id o u refl l)

-- The work id that the state gives out next is not in use by a pending session.
abbrev pub FreshId : ServerState → UdpProxy → Type 0
FreshId s u = get (next_work_id s).0 u.pending_by_id ≡ none

first_datagram-Linked :
    (peer : Addr) (d : Bytes) (now : ℕ) (u : UdpProxy) (s : ServerState)
    → FreshId s u
    → LinkedProxy u
    → LinkedProxy (first_datagram peer d now u s).1
unfolding first_datagram open_pending
first_datagram-Linked peer d now u s fresh l =
    let id = (next_work_id s).0 in
    let p : PendingUdp = record { client = peer; created = now } in
    elim (Bool-cases (leb max_pending_udp_sessions (length u.pending_by_id))) [
      | inl e ↦ rw e l
      | inr e ↦ rw e (Linked-insert u.pending_client u.pending_by_id peer id p l fresh refl)
    ]

offer-Linked : (c : ℕ) (d : Bytes) (u : UdpProxy) → LinkedProxy u → LinkedProxy (offer c d u)
offer-Linked c d u l = let t = offer-tables c d u in rw (t.0, t.1) l

pending_datagram-Linked :
    (peer : Addr) (d : Bytes) (now : ℕ) (o : Option ℕ) (u : UdpProxy) (s : ServerState)
    → FreshId s u
    → LinkedProxy u
    → LinkedProxy (pending_datagram peer d now o u s).1
pending_datagram-Linked peer d now none u s fresh l = first_datagram-Linked peer d now u s fresh l
pending_datagram-Linked peer d now (some id) u s fresh l =
    elim (Bool-cases (is_some (get id u.pending_by_id))) [
      | inl e ↦ rw e (offer-Linked id d u l)
      | inr e ↦ rw e l
    ]

session_datagram-Linked :
    (peer : Addr) (d : Bytes) (now : ℕ) (o : Option UdpSession) (u : UdpProxy) (s : ServerState)
    → FreshId s u
    → LinkedProxy u
    → LinkedProxy (session_datagram peer d now o u s).1
session_datagram-Linked peer d now none u s fresh l =
    pending_datagram-Linked peer d now (get peer u.pending_client) u s fresh l
session_datagram-Linked peer d now (some x) u s fresh l = offer-Linked x.channel d _ l

-- If the tables of pending sessions are linked and the next work id is not in use, every datagram
-- keeps them linked: the work id under which a client is remembered leads to an entry, and that
-- entry to the client.
pub handle_datagram-LinkedProxy :
    (peer : Addr) (d : Bytes) (now : ℕ) (u : UdpProxy) (s : ServerState)
    → FreshId s u
    → LinkedProxy u
    → LinkedProxy (handle_datagram peer d now u s).1
unfolding handle_datagram
handle_datagram-LinkedProxy peer d now u s fresh l =
    session_datagram-Linked peer d now (get peer u.sessions) u s fresh l
