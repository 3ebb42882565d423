-- ===== src/Server/Loop/Endings.antt =====
-- How the session of a control loop ends.
use rfrpv.Prelude.{
  ℕ, String, ◌≡◌, ◌≢◌, refl, true, false, none, some, List, [], ◌∷◌, string_eq, nat_eq, arith,
  is_some, ◌∙◌, Bool-cases, inl, inr, beq_refl, All, if◌then◌else◌,
}
use rfrpv.Map.{get, keys, get-insert, elem-keys, get-retain_map-passed, get-remove_all, get-remove}
use rfrpv.Protocol.Messages.{Json}
use rfrpv.Server.State.{ServerState, Session, PendingWork, session_at}
use rfrpv.Server.Cleanup.{end_session, unregister_session, emptied, is_foreign}
use rfrpv.Server.Cleanup.Effects.{cleanup_lem}
use rfrpv.Server.Loop.{Loop, Meets, Event, turn, control_loop}
use rfrpv.Server.Loop.Turns.{Stands, Keeps, turn-TurnOf}

-- The session `x` is over in `t`: its run id does not lead to it, none of its names and domains is
-- in the tables of routes, no user waits for it, and its object holds no proxy, no domain and no
-- pooled connection.
pub record IsOver (x : Session) (t : ServerState) : Type 0 where
  pub object : Session
  pub at : session_at t x.session_id ≡ some object
  pub emptied : (object.proxies ≡ []) × (object.proxy_domains ≡ []) × (object.pools ≡ [])
  pub unregistered : get x.run_id t.sessions ≢ some x.session_id
  pub names : (n : String) → is_some (get n x.proxies) ≡ true → get n t.proxy_index ≡ none
  pub domains : (d : String) → is_some (get d x.proxy_domains) ≡ true → get d t.domain_index ≡ none
  pub users : (id : ℕ) (p : PendingWork) → get id t.pending ≡ some p → p.session_id ≢ x.session_id

unregister_session-gone :
    (x : Session) (s : ServerState)
    → get x.run_id (unregister_session x s).sessions ≢ some x.session_id
unfolding unregister_session
unregister_session-gone x s h =
    ground
      (arith, get-remove x.run_id x.run_id s.sessions, beq_refl x.run_id, beq_refl x.session_id)

end_session-IsOver : (y : Session) (s : ServerState) → IsOver y (end_session y s)
unfolding end_session
end_session-IsOver y s =
    let u = unregister_session y s in
    rw (cleanup_lem y u) (record {
      object = emptied y;
      at =
          ground
            (arith, get-insert y.session_id y.session_id (emptied y) u.heap, beq_refl y.session_id);
      emptied = (refl, refl, refl);
      unregistered = unregister_session-gone y s;
      names = λ n h.
          ground (arith, get-remove_all (keys y.proxies) n u.proxy_index, elem-keys n y.proxies);
      domains = λ d h. ground (
        arith,
        get-remove_all (keys y.proxy_domains) d u.domain_index,
        elem-keys d y.proxy_domains,
      );
      users = λ id p h e. ground (
        arith,
        get-retain_map-passed (is_foreign y.session_id) id u.pending {v = p} h,
        string_eq.beq_iff p.session_id y.session_id,
      );
    })

-- The state in which the session of a control loop is ended: the loop has been left, and other tasks
-- have run while the writing task closed the connection.
abbrev pub left_at : Json → List (Meets × Event) → Loop → ServerState → ServerState
left_at j [] l s = s
left_at j ((e, v) ∷ es) l s =
    let (goes_on, l', s') = turn j e v l (e.others s) in
    let rest = left_at j es l' s' in if goes_on then rest else e.afterwards s'

-- Other tasks keep the session's object, in every round.
abbrev pub KeptAll : String → String → List (Meets × Event) → Type 0
KeptAll run sid es =
    All
      (λ (p : Meets × Event).
        Keeps run sid p.0.others × Keeps run sid p.0.meanwhile × Keeps run sid p.0.afterwards)
      es

-- However the control loop of a session ends, the session is over: by a frame that is not valid, a
-- message to close, the end of the stream, a lost heartbeat, an answer that cannot be sent, or a
-- signal to stop. Other tasks may do anything between the rounds, during a registration and while the
-- connection is closed, such as let the client in again and give its names to the new session, but
-- for putting another object in the place of the session's. What the object of the session holds
-- when it is ended is released, and no ghost of the session stays.
pub control_loop-IsOver :
    (j : Json) (run : String) (es : List (Meets × Event)) (l : Loop) (s : ServerState)
    → Stands run l.session_id s
    → KeptAll run l.session_id es
    → (control_loop j es l s).0 ≡ false
    → (last : Stands run l.session_id (left_at j es l s)) × IsOver last.object
        (control_loop j es l s).2
unfolding control_loop
control_loop-IsOver j run es l s st kept h = go es l s refl st kept h
  where
    go :
        (es : List (Meets × Event)) (l' : Loop) (s : ServerState)
        → l'.session_id ≡ l.session_id
        → Stands run l.session_id s
        → KeptAll run l.session_id es
        → (control_loop j es l' s).0 ≡ false
        → (last : Stands run l.session_id (left_at j es l' s)) × IsOver last.object
            (control_loop j es l' s).2
    go [] l' s same st kept h = cc
    go ((e, v) ∷ es) l' s same st ((before, during, closing), later) h =
        let (goes_on, next, s') = turn j e v l' (e.others s) in
        let (keeps, after) =
          turn-TurnOf run e l' (rw same during) j v (e.others s) (rw same (before s st)) in
        let same' : next.session_id ≡ l.session_id = keeps ∙ same in
        let st' : Stands run l.session_id s' = rw (← same) after in
        let st'' : Stands run l.session_id (e.afterwards s') = closing s' st' in
        elim (Bool-cases goes_on) [
          | inl more ↦ rw more (go es next s' same' st' later (rw more at h))
          | inr done ↦
              rw done (st'', rw (same', st''.at) (end_session-IsOver st''.object (e.afterwards s')))
        ]
