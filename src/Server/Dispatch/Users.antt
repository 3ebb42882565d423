-- ===== src/Server/Dispatch/Users.antt =====
-- What becomes of user connections.
use rfrpv.Prelude.{
  ℕ, ◌+◌, ◌%◌, ◌≡◌, ◌≤◌, refl, sym, String, Bool, false, Option, none, some, List, [], ◌∷◌,
  if◌then◌else◌, leb, nat_beq, ◌⊎◌, string_eq, nat_eq, nat_beq_iff, arith, Bool-cases, inl, inr,
}
use rfrpv.Map.{Map, get, insert, remove, get-insert, elem, remove_all, get-remove_all}
use rfrpv.Map.Sizes.{Distinct}
use rfrpv.Server.State.{ServerState, Session, PendingWork, Stream, u64_mod}
use rfrpv.Server.Dispatch.{
  Dispatched, dispatch_user, dispatch_popped, pop_live_pooled, count_connection, keep_user,
  pop_from, expired_ids, take_users, is_expired, sweep_expired_pending,
}

dispatch_popped-active :
    (name : String) (user : Stream) (now : ℕ) (c : Option Stream × Session) (s : ServerState)
    → (dispatch_popped name user now c s).1.active_connections ≡ s.active_connections
unfolding keep_user
dispatch_popped-active name user now (some w, x) s = refl
dispatch_popped-active name user now (none, x) s = refl

-- The gauge of active connections counts every user that is let in. It does not pass the limit, if
-- it was within the limit before, and a user at the limit is turned away with no effect at all.
pub dispatch_user-active :
    (alive : Stream → Bool) (name : String) (user : Stream) (x : Session) (now : ℕ)
    (s : ServerState)
    → s.active_connections ≤ s.max_active
    → ((dispatch_user alive name user x now s ≡ (Dispatched.turned_away, s))
        × (s.active_connections ≡ s.max_active))
      ⊎ (((dispatch_user alive name user x now s).1.active_connections ≡ s.active_connections + 1)
          × (s.active_connections + 1 ≤ s.max_active))
unfolding dispatch_user count_connection
dispatch_user-active alive name user x now s h =
    elim (Bool-cases (leb s.max_active s.active_connections)) [
      | inl e ↦ inl (ground arith, ground arith)
      | inr e ↦ inr (
        ground (
          arith,
          dispatch_popped-active name user now (pop_live_pooled alive name x)
              (count_connection name s),
        ),
        ground arith,
      )
    ]

dispatch_popped-waiting :
    (name : String) (user : Stream) (now : ℕ) (c : Option Stream × Session) (s : ServerState)
    {id : ℕ}
    → (dispatch_popped name user now c s).0 ≡ Dispatched.waiting id
    → (id ≡ (s.work_id + 1) % u64_mod)
      × ((dispatch_popped name user now c s).1.pending
          ≡ insert id
              (record {
                proxy_name = name;
                session_id = c.1.session_id;
                user = some user;
                created = now;
              })
              s.pending)
unfolding keep_user
dispatch_popped-waiting name user now (some w, x) s h = cc
dispatch_popped-waiting name user now (none, x) s h = (cc, cc)

pop_from-session_id :
    (alive : Stream → Bool) (name : String) (x : Session) (o : Option (List Stream))
    → (pop_from alive name x o).1.session_id ≡ x.session_id
pop_from-session_id alive name x none = refl
pop_from-session_id alive name x (some pool) = refl

-- A user that has to wait is kept under the next work id, with the name of its proxy and the session
-- that is to serve it, and the users that wait under other ids are still there.
pub dispatch_user-waiting :
    (alive : Stream → Bool) (name : String) (user : Stream) (x : Session) (now : ℕ)
    (s : ServerState) {id : ℕ}
    → (dispatch_user alive name user x now s).0 ≡ Dispatched.waiting id
    → (id ≡ (s.work_id + 1) % u64_mod)
      × ((j : ℕ)
          → get j (dispatch_user alive name user x now s).1.pending ≡ (
              if nat_beq id j
              then some (record {
                proxy_name = name;
                session_id = x.session_id;
                user = some user;
                created = now;
              })
              else get j s.pending))
unfolding dispatch_user count_connection pop_live_pooled
dispatch_user-waiting alive name user x now s {id = id} h =
    let c = pop_from alive name x (get name x.pools) in
    let s' = count_connection name s in
    let through : dispatch_user alive name user x now s ≡ dispatch_popped name user now c s' =
      ground arith in
    let (fresh, kept) = dispatch_popped-waiting name user now c s' {id = id} (rw (sym through) h) in
    let p : PendingWork = record {
      proxy_name = name;
      session_id = x.session_id;
      user = some user;
      created = now;
    } in
    (
      fresh,
      λ j. rw through (
          ground (
            arith,
            kept,
            pop_from-session_id alive name x (get name x.pools),
            get-insert id j p s.pending,
          )),
    )

pub take_users-remove_all :
    (ids : List ℕ) (m : Map ℕ PendingWork) → (take_users ids m).1 ≡ remove_all ids m
unfolding take_users remove_all
take_users-remove_all [] m = refl
take_users-remove_all (id ∷ ids) m = take_users-remove_all ids (remove id m)

-- The ids that are collected are the expired ones.
elem-expired_ids :
    (now timeout : ℕ) (m : Map ℕ PendingWork) (id : ℕ)
    → Distinct m
    → elem id (expired_ids now timeout m)
      ≡ elim (get id m) [ none ↦ false | some p ↦ is_expired now timeout p ]
unfolding expired_ids get
elem-expired_ids now timeout [] id d = refl
elem-expired_ids now timeout ((j, p) ∷ m) id d =
    ground (arith, elem-expired_ids now timeout m id d.1, nat_beq_iff j id)

-- After a sweep a user waits exactly if it waited before and had not waited for the time allowed;
-- nothing else of the state is changed. The users wait under distinct ids.
pub sweep_expired_pending_lem :
    (now timeout : ℕ) (s : ServerState)
    → Distinct s.pending
    → ((id : ℕ)
        → get id (sweep_expired_pending now timeout s).1.pending ≡ elim (get id s.pending) [
          | none ↦ none
          | some p ↦ if is_expired now timeout p then none else some p
        ])
      × ((sweep_expired_pending now timeout s).1
          ≡ record s { pending = (sweep_expired_pending now timeout s).1.pending })
unfolding sweep_expired_pending
sweep_expired_pending_lem now timeout s d = (
  λ id. ground (
    arith,
    take_users-remove_all (expired_ids now timeout s.pending) s.pending,
    get-remove_all (expired_ids now timeout s.pending) id s.pending,
    elem-expired_ids now timeout s.pending id d,
  ),
  refl,
)
