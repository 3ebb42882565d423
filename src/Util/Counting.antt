-- ===== src/Util/Counting.antt =====
-- `CountingStream` of crates/rfrp-common/src/util/counting.rs: a stream that counts its bytes in
-- batches. Times are numbers of milliseconds.
pub mod Batches
use rfrpv.Prelude.{
  ℕ, ◌+◌, ◌-◌, ◌*◌, ◌%◌, ◌^◌, Bool, ◌&&◌, ◌||◌, Option, none, some, List, [], ◌∷◌, min, leb, ltb,
  nat_beq, if◌then◌else◌,
}
use rfrpv.Server.State.{u64_mod}

abbrev pub flush_threshold : ℕ
flush_threshold = 256 * 1024

abbrev pub flush_interval : ℕ
flush_interval = 1000

abbrev pub time_check_every_ops : ℕ
time_check_every_ops = 32

-- A set of shared counters: bytes read and written, and the gauge of active connections.
pub record Totals : Type 0 where
  pub read : ℕ
  pub write : ℕ
  pub active : ℕ

-- The counters of the stream, its own and the shared ones, with a second set if there is one.
pub record CountingStream : Type 0 where
  pub totals : Totals
  pub extra : Option Totals
  pub pending_read : ℕ
  pub pending_write : ℕ
  pub last_flush : ℕ
  pub ops_since_time_check : ℕ

unfoldable pub new_stream : Totals → ℕ → CountingStream
new_stream totals now = record {
  totals = totals;
  extra = none;
  pending_read = 0;
  pending_write = 0;
  last_flush = now;
  ops_since_time_check = 0;
}

unfoldable pub with_extra : Totals → CountingStream → CountingStream
with_extra e c = record c { extra = some (record e { active = e.active + 1 }) }

-- `fetch_add` on the counters of bytes.
abbrev pub credit : ℕ → ℕ → Totals → Totals
credit r w t = record t { read = (t.read + r) % u64_mod; write = (t.write + w) % u64_mod }

abbrev pub add_pending : CountingStream → Totals → Totals
add_pending c = credit c.pending_read c.pending_write

abbrev pub each_extra : (Totals → Totals) → Option Totals → Option Totals
each_extra f none = none
each_extra f (some e) = some (f e)

unfoldable pub flush : ℕ → CountingStream → CountingStream
flush now c = record {
  totals = add_pending c c.totals;
  extra = each_extra (add_pending c) c.extra;
  pending_read = 0;
  pending_write = 0;
  last_flush = now;
  ops_since_time_check = 0;
}

unfoldable pub maybe_flush : ℕ → CountingStream → CountingStream
unfolding flush
maybe_flush now c =
    if nat_beq c.pending_read 0 && nat_beq c.pending_write 0
    then c
    else if leb flush_threshold c.pending_read || leb flush_threshold c.pending_write
    then flush now c
    else (let ops = min (c.ops_since_time_check + 1) (2 ^ 32 - 1) in
        if leb time_check_every_ops ops
        then (if leb flush_interval (now - c.last_flush)
            then flush now c
            else record c { ops_since_time_check = 0 })
        else record c { ops_since_time_check = ops })

-- A read or a write that moved so many bytes. What is pending stays so small that the sum does not
-- overflow.
pub data Io : Type 0 where
  reads writes : ℕ → Io

unfoldable pub transfer : ℕ → Io → CountingStream → CountingStream
unfolding maybe_flush
transfer now (reads n) c = maybe_flush now (record c { pending_read = c.pending_read + n })
transfer now (writes n) c = maybe_flush now (record c { pending_write = c.pending_write + n })

unfoldable pub transfer_all : List (ℕ × Io) → CountingStream → CountingStream
unfolding transfer
transfer_all [] c = c
transfer_all ((now, io) ∷ rest) c = transfer_all rest (transfer now io c)

abbrev pub leave : Totals → Totals
leave t = record t { active = t.active - 1 }

-- `Drop`: the shared counters at the end. The connection has been counted, so no gauge is zero.
unfoldable pub drop_stream : ℕ → CountingStream → Totals × Option Totals
unfolding flush
drop_stream now c = let c' = flush now c in (leave c'.totals, each_extra leave c'.extra)
