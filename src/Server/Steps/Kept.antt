-- ===== src/Server/Steps/Kept.antt =====
-- What keeps the gauge of active connections: logins and the ends of sessions.
use rfrpv.Prelude.{
  ◌≡◌, refl, ◌∙◌, String, Option, none, some, string_eq, nat_eq, Bool-cases, inl, inr,
}
use rfrpv.Map.{get}
use rfrpv.Server.State.{ServerState, Session}
use rfrpv.Server.Control.{Attempt, enter_session, install, new_session, cleanup_old, old_session}
use rfrpv.Server.Cleanup.{cleanup, end_session, unregister_session, is_current}
use rfrpv.Server.Cleanup.Effects.{cleanup_lem}

-- The gauge and its limit are the same in both states.
pub record SameGauge (s t : ServerState) : Type 0 where
  pub active : t.active_connections ≡ s.active_connections
  pub max : t.max_active ≡ s.max_active

pub SameGauge-trans : (s t u : ServerState) → SameGauge s t → SameGauge t u → SameGauge s u
SameGauge-trans s t u g h = record { active = h.active ∙ g.active; max = h.max ∙ g.max }

cleanup-SameGauge : (x : Session) (s : ServerState) → SameGauge s (cleanup x s)
cleanup-SameGauge x s = rw cleanup_lem (record { active = refl; max = refl })

cleanup_old-SameGauge : (o : Option Session) (s : ServerState) → SameGauge s (cleanup_old o s)
cleanup_old-SameGauge none s = record { active = refl; max = refl }
cleanup_old-SameGauge (some x) s = cleanup-SameGauge x s

unregister_session-SameGauge :
    (x : Session) (s : ServerState) → SameGauge s (unregister_session x s)
unfolding unregister_session
unregister_session-SameGauge x s =
    elim (Bool-cases (is_current x.session_id (get x.run_id s.sessions))) [
      | inl e ↦ rw e (record { active = refl; max = refl })
      | inr e ↦ rw e (record { active = refl; max = refl })
    ]

pub end_session-SameGauge : (x : Session) (s : ServerState) → SameGauge s (end_session x s)
unfolding end_session
end_session-SameGauge x s =
    let u = unregister_session x s in
    SameGauge-trans s u (cleanup x u) (unregister_session-SameGauge x s) (cleanup-SameGauge x u)

pub install-SameGauge : (x : Session) (s : ServerState) → SameGauge s (install x s)
unfolding install
install-SameGauge x s =
    let g = cleanup_old-SameGauge (old_session s (get x.run_id s.sessions)) _ in
    record { active = g.active; max = g.max }

pub enter_session-SameGauge :
    (a : Attempt) (run_id : String) (s : ServerState) → SameGauge s (enter_session a run_id s).1
unfolding enter_session
enter_session-SameGauge a run_id s =
    let x = new_session a run_id in
    let kept = install-SameGauge x s in
    elim (Bool-cases a.sent) [
      | inl k ↦ rw k (record { active = kept.active; max = kept.max })
      | inr k ↦ rw k (
          SameGauge-trans s (install x s) (end_session x (install x s)) kept
            (end_session-SameGauge x (install x s)))
    ]
