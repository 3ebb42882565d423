-- ===== src/Server/Cleanup.antt =====
-- The end of a session: `unregister_session` and `cleanup` of crates/rfrps/src/control.rs. Waking
-- the tasks that wait on the session's `stop`, and aborting its listeners, leave no trace here.
pub mod Effects
use rfrpv.Prelude.{
  ℕ, String, Bool, true, false, not, Option, none, some, List, [], ◌∷◌, if◌then◌else◌, ◌==◌,
  string_eq, nat_eq,
}
use rfrpv.Map.{Map, get, remove, retain_map, keys}
use rfrpv.Protocol.Messages.{ProxyType}
use rfrpv.Server.State.{
  ServerState, Session, ProxyEntry, PendingWork, put_session, remove_proxy_stats, unindex_proxies,
  unindex_domains,
}

-- Only the current entry of a run id is taken away: after a reconnection it is another session's.
abbrev pub is_current : String → Option String → Bool
is_current sid none = false
is_current sid (some t) = t == sid

unfoldable pub unregister_session : Session → ServerState → ServerState
unregister_session x s =
    if is_current x.session_id (get x.run_id s.sessions)
    then record s { sessions = remove x.run_id s.sessions }
    else s

abbrev pub is_udp : ProxyType → Bool
is_udp ProxyType.udp = true
is_udp _ = false

unfoldable pub udp_names : Map String ProxyEntry → List String
udp_names [] = []
udp_names ((n, p) ∷ m) = let rest = udp_names m in if is_udp p.kind then n ∷ rest else rest

abbrev stop_udp_entry : String → Option ℕ → ServerState → ServerState
stop_udp_entry name none s = s
stop_udp_entry name (some u) s = record s {
  udp = remove name s.udp;
  udp_stopped = u ∷ s.udp_stopped;
}

-- The loop that takes the UDP proxies of the session away and cancels their stop signals.
unfoldable pub stop_udp : List String → ServerState → ServerState
stop_udp [] s = s
stop_udp (n ∷ ns) s = stop_udp ns (stop_udp_entry n (get n s.udp) s)

abbrev pub is_foreign : String → ℕ → PendingWork → Bool
is_foreign sid id p = not (p.session_id == sid)

-- What is left of a session object.
abbrev pub emptied : Session → Session
emptied x = record x { proxies = []; proxy_domains = []; pools = [] }

unfoldable pub drop_pending : String → ServerState → ServerState
drop_pending sid s = record s { pending = retain_map (is_foreign sid) s.pending }

unfoldable pub cleanup : Session → ServerState → ServerState
unfolding remove_proxy_stats unindex_proxies unindex_domains stop_udp udp_names drop_pending
cleanup x s =
    let s1 = remove_proxy_stats (keys x.proxies) s in
    let s2 = unindex_proxies (keys x.proxies) s1 in
    let s3 = unindex_domains (keys x.proxy_domains) s2 in
    let s4 = stop_udp (udp_names x.proxies) s3 in
    drop_pending x.session_id (put_session (emptied x) s4)

-- What the control task does when its loop is over.
unfoldable pub end_session : Session → ServerState → ServerState
unfolding unregister_session cleanup
end_session x s = cleanup x (unregister_session x s)
