-- ===== src/Server/Connection/Secure.antt =====
-- What a connection has shown before a handler sees it.
use rfrpv.Prelude.{
  ◌≡◌, ◌≢◌, ◌⊎◌, inl, inr, refl, sym, ◌∙◌, String, Bool, true, false, Option, none, some, arith,
  Bool-cases, ◌&&◌, nat_beq,
}
use rfrpv.Errors.{Error, Result, ok, err}
use rfrpv.Timeouts.{Attempted, Attempted-cases}
use rfrpv.Protocol.Frame.{Frame}
use rfrpv.Protocol.Messages.{Json}
use rfrpv.Server.State.{ServerState, Stream}
use rfrpv.Server.Control.{Attempt}
use rfrpv.Server.Connection.{
  Settings, Peer, FirstByte, Routed, Handled, route_frame, first_frame, route_connection,
  handle_connection, routed, tls_handshake_byte,
}

-- The connection is one over TLS: the acceptor is there, the first byte was that of a handshake, and
-- the handshake is done.
pub record OverTls (v : Settings) (p : Peer) : Type 0 where
  pub acceptor : v.has_tls ≡ true
  pub looks : p.first ≡ FirstByte.byte tls_handshake_byte
  pub shaken : p.handshake ≡ Attempted.done

route_frame-login :
    (v : Settings) (is_tls : Bool) (f : Frame) {g : Frame} {b : Bool}
    → route_frame v is_tls f ≡ Routed.to_login g b
    → is_tls ≡ v.tls_enable
unfolding route_frame
route_frame-login v is_tls f h = ground arith

route_frame-work :
    (v : Settings) (is_tls : Bool) (f : Frame) {g : Frame} {b : Bool}
    → route_frame v is_tls f ≡ Routed.to_work g b
    → v.work_conn_tls ≡ true
    → is_tls ≡ true
unfolding route_frame
route_frame-work v is_tls f h w = ground arith

module _ (v : Settings) where
  first_frame-login :
      (is_tls : Bool) (o : Option (Result Frame)) {g : Frame} {b : Bool}
      → first_frame v is_tls o ≡ Routed.to_login g b
      → is_tls ≡ v.tls_enable
  first_frame-login is_tls none h = cc
  first_frame-login is_tls (some (err e)) h = cc
  first_frame-login is_tls (some (ok f)) {g} {b} h = route_frame-login v is_tls f {g = g} {b = b} h

  first_frame-work :
      (is_tls : Bool) (o : Option (Result Frame)) {g : Frame} {b : Bool}
      → first_frame v is_tls o ≡ Routed.to_work g b
      → v.work_conn_tls ≡ true
      → is_tls ≡ true
  first_frame-work is_tls none h w = cc
  first_frame-work is_tls (some (err e)) h w = cc
  first_frame-work is_tls (some (ok f)) {g} {b} h w =
      route_frame-work v is_tls f {g = g} {b = b} h w

  -- The first frame of a connection is read over TLS, or not; or it ends before that.
  route_connection-cases :
      (p : Peer)
      → (OverTls v p × (route_connection v p ≡ first_frame v true p.frame))
        ⊎ (((¬ OverTls v p) × (route_connection v p ≡ first_frame v false p.frame))
            ⊎ ((f : Frame) (b : Bool)
                → (route_connection v p ≢ Routed.to_login f b)
                  × (route_connection v p ≢ Routed.to_work f b)))
  unfolding route_connection
  route_connection-cases p = go p.first refl
    where
      go :
          (o : FirstByte)
          → p.first ≡ o
          → (OverTls v p × (route_connection v p ≡ first_frame v true p.frame))
            ⊎ (((¬ OverTls v p) × (route_connection v p ≡ first_frame v false p.frame))
                ⊎ ((f : Frame) (b : Bool)
                    → (route_connection v p ≢ Routed.to_login f b)
                      × (route_connection v p ≢ Routed.to_work f b)))
      go FirstByte.silent e = inr (inr λ f b. (ground arith, ground arith))
      go FirstByte.closed_at_once e = inr (inr λ f b. (ground arith, ground arith))
      go (FirstByte.peek_failed why) e = inr (inr λ f b. (ground arith, ground arith))
      go (FirstByte.byte n) e = elim (Bool-cases (v.has_tls && nat_beq n tls_handshake_byte)) [
        | inl k ↦ elim (Attempted-cases p.handshake) [
          | inl d ↦
              inl
                (record { acceptor = ground arith; looks = ground arith; shaken = d }, ground arith)
          | inr d ↦ inr (inr λ f b. (ground arith, ground arith))
        ]
        | inr k ↦ inr (inl (λ o. ground arith, ground arith))
      ]

  route_connection-login :
      (p : Peer) {f : Frame} {b : Bool}
      → route_connection v p ≡ Routed.to_login f b
      → (v.tls_enable ≡ true → OverTls v p) × (v.tls_enable ≡ false → ¬ OverTls v p)
  route_connection-login p {f} {b} h = elim (route_connection-cases p) [
    | inl (o, e) ↦
        let same = first_frame-login true p.frame {g = f} {b = b} (sym e ∙ h) in
        (λ t. o, λ t. cc (same, t))
    | inr (inl (o, e)) ↦
        let same = first_frame-login false p.frame {g = f} {b = b} (sym e ∙ h) in
        (λ t. cc (same, t), λ t. o)
    | inr (inr neither) ↦ absurd ((neither f b).0 h)
  ]

  route_connection-work :
      (p : Peer) {f : Frame} {b : Bool}
      → route_connection v p ≡ Routed.to_work f b
      → v.work_conn_tls ≡ true
      → OverTls v p
  route_connection-work p {f} {b} h w = elim (route_connection-cases p) [
    | inl (o, e) ↦ o
    | inr (inl (o, e)) ↦ cc (first_frame-work false p.frame {g = f} {b = b} (sym e ∙ h) w)
    | inr (inr neither) ↦ absurd ((neither f b).1 h)
  ]

-- What the outcome of a connection says of the way that it came.
abbrev pub Secured : Settings → Peer → Handled → Type 0
Secured v p (Handled.login r) =
    (v.tls_enable ≡ true → OverTls v p) × (v.tls_enable ≡ false → ¬ OverTls v p)
Secured v p (Handled.work r) = v.work_conn_tls ≡ true → OverTls v p
Secured v p _ = Unit

-- A login is handled over TLS if the server has TLS enabled, and only without TLS otherwise; a work
-- connection is handled over TLS if the server wants that for work connections. Any other connection
-- leaves the state as it is.
pub handle_connection-Secured :
    (v : Settings) (j : Json) (is_uuid : String → Bool) (a : Attempt) (stream : Stream) (p : Peer)
    (s : ServerState)
    → Secured v p (handle_connection v j is_uuid a stream p s).0
      × (((handle_connection v j is_uuid a stream p s).0 ≡ Handled.dropped
            ⊎ ((e : Error) × ((handle_connection v j is_uuid a stream p s).0 ≡ Handled.erred e)))
          → (handle_connection v j is_uuid a stream p s).1 ≡ s)
unfolding handle_connection
handle_connection-Secured v j is_uuid a stream p s = go (route_connection v p) refl
  where
    go :
        (r : Routed)
        → route_connection v p ≡ r
        → Secured v p (routed j is_uuid a stream r s).0
          × (((routed j is_uuid a stream r s).0 ≡ Handled.dropped
                ⊎ ((e : Error) × ((routed j is_uuid a stream r s).0 ≡ Handled.erred e)))
              → (routed j is_uuid a stream r s).1 ≡ s)
    go Routed.closed e = (tt, λ h. refl)
    go (Routed.failed why) e = (tt, λ h. refl)
    go (Routed.to_login f b) e =
        (route_connection-login v p {f = f} {b = b} e, λ h. elim h [ inl k ↦ cc | inr k ↦ cc k.1 ])
    go (Routed.to_work f b) e =
        (route_connection-work v p {f = f} {b = b} e, λ h. elim h [ inl k ↦ cc | inr k ↦ cc k.1 ])
