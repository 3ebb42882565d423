-- ===== src/Server/Cleanup/Effects.antt =====
-- What the end of a session takes away, and what it leaves.
use rfrpv.Prelude.{
  ℕ, String, ◌≡◌, refl, Option, none, some, List, [], ◌∷◌, if◌then◌else◌, ◌==◌, string_eq, nat_eq,
  arith,
}
use rfrpv.Map.{
  get, remove, insert, remove_all, retain_map, keys, elem, get-remove_all, get-insert, get-remove,
}
use rfrpv.Map.Sizes.{Distinct, remove_missing, get-retain_map}
use rfrpv.Server.State.{
  ServerState, Session, PendingWork, session_at, remove_proxy_stats, unindex_proxies,
  unindex_domains,
}
use rfrpv.Server.Cleanup.{
  cleanup, unregister_session, emptied, stop_udp, stop_udp_entry, udp_names, is_foreign, is_current,
}

stop_udp_entry_lem :
    (n : String) (o : Option ℕ) (s : ServerState)
    → get n s.udp ≡ o
    → stop_udp_entry n o s
      ≡ record s { udp = remove n s.udp; udp_stopped = (stop_udp_entry n o s).udp_stopped }
stop_udp_entry_lem n none s e = ground (arith, remove_missing n s.udp e)
stop_udp_entry_lem n (some u) s e = refl

-- Stopping UDP proxies touches the table of UDP proxies and the stop signals, and nothing else.
stop_udp_lem :
    (ns : List String) (s : ServerState)
    → stop_udp ns s
      ≡ record s { udp = remove_all ns s.udp; udp_stopped = (stop_udp ns s).udp_stopped }
unfolding stop_udp remove_all
stop_udp_lem [] s = refl
stop_udp_lem (n ∷ ns) s =
    let s' = stop_udp_entry n (get n s.udp) s in
    cc (stop_udp_lem ns s', stop_udp_entry_lem n (get n s.udp) s refl)

-- Every field after a cleanup, but the list of stop signals.
pub cleanup_lem :
    (x : Session) (s : ServerState)
    → cleanup x s ≡ record s {
      proxy_stats = remove_all (keys x.proxies) s.proxy_stats;
      proxy_index = remove_all (keys x.proxies) s.proxy_index;
      domain_index = remove_all (keys x.proxy_domains) s.domain_index;
      udp = remove_all (udp_names x.proxies) s.udp;
      udp_stopped = (cleanup x s).udp_stopped;
      heap = insert x.session_id (emptied x) s.heap;
      pending = retain_map (is_foreign x.session_id) s.pending;
    }
unfolding cleanup
cleanup_lem x s = cc (
    stop_udp_lem (udp_names x.proxies) (
      unfold remove_proxy_stats unindex_proxies unindex_domains in
      unindex_domains (keys x.proxy_domains)
        (unindex_proxies (keys x.proxies) (remove_proxy_stats (keys x.proxies) s))))

-- `t` is `s` after the end of `x`: its domains, names and UDP proxies are in no table, its waiting
-- users are gone and its object is empty; the entries of others stand as before.
pub record EndsSession (x : Session) (s t : ServerState) : Type 0 where
  pub domains :
      (d : String)
      → get d t.domain_index
        ≡ (if elem d (keys x.proxy_domains) then none else get d s.domain_index)
  pub names :
      (n : String)
      → get n t.proxy_index ≡ (if elem n (keys x.proxies) then none else get n s.proxy_index)
  pub udp :
      (n : String) → get n t.udp ≡ (if elem n (udp_names x.proxies) then none else get n s.udp)
  pub objects :
      (sid : String)
      → session_at t sid ≡ (if x.session_id == sid then some (emptied x) else session_at s sid)
  pub users :
      (id : ℕ) (p : PendingWork)
      → get id s.pending ≡ some p
      → get id t.pending ≡ (if p.session_id == x.session_id then none else some p)
  pub registered : t.sessions ≡ s.sessions

-- If the users that wait are under distinct ids, the cleanup of a session takes its domains, its
-- names and its UDP proxies out of their tables, drops its waiting users and empties its object. The
-- other entries of these tables stand as before, and the table of run ids is unchanged.
pub cleanup-EndsSession :
    (x : Session) (s : ServerState) → Distinct s.pending → EndsSession x s (cleanup x s)
cleanup-EndsSession x s d = record {
  domains = λ k. rw cleanup_lem (get-remove_all (keys x.proxy_domains) k s.domain_index);
  names = λ k. rw cleanup_lem (get-remove_all (keys x.proxies) k s.proxy_index);
  udp = λ k. rw cleanup_lem (get-remove_all (udp_names x.proxies) k s.udp);
  objects = λ sid. rw cleanup_lem (get-insert x.session_id sid (emptied x) s.heap);
  users = λ id p h.
      rw cleanup_lem (ground (arith, get-retain_map (is_foreign x.session_id) id p s.pending d h));
  registered = rw cleanup_lem refl;
}

-- Unregistering a session takes its run id out of the table if the entry is its own, and changes
-- nothing if another session has taken its place.
pub get-unregister_session :
    (x : Session) (s : ServerState) (run_id : String)
    → get run_id (unregister_session x s).sessions ≡ (
        if x.run_id == run_id
        then (if is_current x.session_id (get x.run_id s.sessions)
            then none
            else get x.run_id s.sessions)
        else get run_id s.sessions)
unfolding unregister_session
get-unregister_session x s run_id =
    ground (arith, get-remove x.run_id run_id s.sessions, string_eq.beq_iff x.run_id run_id)
