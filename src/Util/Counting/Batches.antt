-- ===== src/Util/Counting/Batches.antt =====
-- No byte is lost or counted twice.
use rfrpv.Prelude.{ℕ, ◌+◌, ◌<◌, ◌≡◌, ◌∙◌, refl, ap, Option, none, some, List, [], ◌∷◌, arith}
use rfrpv.Util.Counting.{
  CountingStream, Totals, Io, flush, maybe_flush, transfer, transfer_all, drop_stream, credit,
  each_extra, leave, flush_threshold,
}

abbrev pub bytes_read : List (ℕ × Io) → ℕ
bytes_read [] = 0
bytes_read ((now, Io.reads n) ∷ rest) = n + bytes_read rest
bytes_read ((now, Io.writes n) ∷ rest) = bytes_read rest

abbrev pub bytes_written : List (ℕ × Io) → ℕ
bytes_written [] = 0
bytes_written ((now, Io.reads n) ∷ rest) = bytes_written rest
bytes_written ((now, Io.writes n) ∷ rest) = n + bytes_written rest

-- Both sets of counters, with so many bytes added.
abbrev credited : CountingStream → ℕ → ℕ → Totals × Option Totals
credited c r w = (credit r w c.totals, each_extra (credit r w) c.extra)

-- Both sets of counters, once what is pending and so many bytes more have been added.
abbrev after : CountingStream → ℕ → ℕ → Totals × Option Totals
after c r w = credited c (c.pending_read + r) (c.pending_write + w)

credit_twice : (a b r w : ℕ) (t : Totals) → credit r w (credit a b t) ≡ credit (a + r) (b + w) t
credit_twice a b r w t = ground arith

credit_each_twice :
    (a b r w : ℕ) (o : Option Totals)
    → each_extra (credit r w) (each_extra (credit a b) o) ≡ each_extra (credit (a + r) (b + w)) o
credit_each_twice a b r w none = refl
credit_each_twice a b r w (some e) = cc (credit_twice a b r w e)

zero-add : (n : ℕ) → 0 + n ≡ n
zero-add n = omega arith

flush-after : (now : ℕ) (c : CountingStream) (r w : ℕ) → after (flush now c) r w ≡ after c r w
unfolding flush
flush-after now c r w =
    rw (zero-add r, zero-add w)
      (cc (
        credit_twice c.pending_read c.pending_write r w c.totals,
        credit_each_twice c.pending_read c.pending_write r w c.extra,
      ))

maybe_flush-after :
    (now : ℕ) (c : CountingStream) (r w : ℕ) → after (maybe_flush now c) r w ≡ after c r w
unfolding maybe_flush
maybe_flush-after now c r w = ground (arith, flush-after now c r w)

transfer_all-after :
    (ios : List (ℕ × Io)) (c : CountingStream) (r w : ℕ)
    → after (transfer_all ios c) r w ≡ after c (bytes_read ios + r) (bytes_written ios + w)
unfolding transfer_all transfer
transfer_all-after [] c r w = rw (zero-add r, zero-add w) refl
transfer_all-after ((now, Io.reads n) ∷ rest) c r w =
    let c' = record c { pending_read = c.pending_read + n } in
    transfer_all-after rest (maybe_flush now c') r w
    ∙ maybe_flush-after now c' (bytes_read rest + r) (bytes_written rest + w)
    ∙ ap (λ k. credited c k (c.pending_write + (bytes_written rest + w))) (omega arith)
transfer_all-after ((now, Io.writes n) ∷ rest) c r w =
    let c' = record c { pending_write = c.pending_write + n } in
    transfer_all-after rest (maybe_flush now c') r w
    ∙ maybe_flush-after now c' (bytes_read rest + r) (bytes_written rest + w)
    ∙ ap (λ k. credited c (c.pending_read + (bytes_read rest + r)) k) (omega arith)

-- What is pending stays below the threshold, so a batch is never larger than the threshold and one
-- transfer.
abbrev pub IsSmall : CountingStream → Type 0
IsSmall c = (c.pending_read < flush_threshold) × (c.pending_write < flush_threshold)

maybe_flush-IsSmall : (now : ℕ) (c : CountingStream) → IsSmall (maybe_flush now c)
unfolding maybe_flush flush
maybe_flush-IsSmall now c = ground arith

transfer-IsSmall : (now : ℕ) (io : Io) (c : CountingStream) → IsSmall (transfer now io c)
unfolding transfer
transfer-IsSmall now (Io.reads n) c =
    maybe_flush-IsSmall now (record c { pending_read = c.pending_read + n })
transfer-IsSmall now (Io.writes n) c =
    maybe_flush-IsSmall now (record c { pending_write = c.pending_write + n })

transfer_all-IsSmall :
    (ios : List (ℕ × Io)) (c : CountingStream) → IsSmall c → IsSmall (transfer_all ios c)
unfolding transfer_all
transfer_all-IsSmall [] c h = h
transfer_all-IsSmall ((now, io) ∷ rest) c h =
    transfer_all-IsSmall rest (transfer now io c) (transfer-IsSmall now io c)

credited_same : (c : CountingStream) {a b r w : ℕ} → a ≡ r → b ≡ w → credited c a b ≡ credited c r w
credited_same c p q = cc

abbrev leave_both : Totals × Option Totals → Totals × Option Totals
leave_both (t, o) = (leave t, each_extra leave o)

each_extra-leave :
    (r w : ℕ) (c : CountingStream)
    → leave_both (credited c r w)
      ≡ (leave (credit r w c.totals), each_extra (λ t. leave (credit r w t)) c.extra)
each_extra-leave r w c = go c.extra
  where
    go :
        (o : Option Totals)
        → ◌≡◌ {A = Totals × Option Totals}
            (leave (credit r w c.totals), each_extra leave (each_extra (credit r w) o))
            (leave (credit r w c.totals), each_extra (λ t. leave (credit r w t)) o)
    go none = refl
    go (some e) = refl

-- Whatever a stream has read and written, and in whatever batches this was counted, when it is
-- dropped both sets of counters have grown by exactly the bytes read and written, modulo 2^64, and
-- each gauge is one less. At any time less than the threshold is pending in each direction. The
-- stream starts with nothing pending.
pub drop_stream-transfer_all :
    (ios : List (ℕ × Io)) (c : CountingStream) (later : ℕ)
    → c.pending_read ≡ 0
    → c.pending_write ≡ 0
    → let grown = λ (t : Totals). leave (credit (bytes_read ios) (bytes_written ios) t) in
      (drop_stream later (transfer_all ios c) ≡ (grown c.totals, each_extra grown c.extra))
      × IsSmall (transfer_all ios c)
unfolding drop_stream flush
drop_stream-transfer_all ios c later pr pw =
    let c' = transfer_all ios c in
    let small : IsSmall c = ground arith in
    let all = transfer_all-after ios c 0 0 in
    let whole =
      credited_same c' (omega arith) (omega arith)
      ∙ all
      ∙ credited_same c (omega (arith, pr)) (omega (arith, pw)) in
    (
      ap leave_both whole ∙ each_extra-leave (bytes_read ios) (bytes_written ios) c,
      transfer_all-IsSmall ios c small,
    )
