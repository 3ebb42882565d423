-- ===== src/Server/Channel.antt =====
-- The bounded channel of outgoing control messages, and `try_send` and `send_with_timeout` of
-- crates/rfrp-common/src/util/control.rs.
use rfrpv.Prelude.{ℕ, Bool, true, false, not, ◌&&◌, [], ◌∷◌, ◌++◌, drop, if◌then◌else◌, ltb, length}
use rfrpv.Protocol.Messages.{Message}
use rfrpv.Server.State.{Session}

-- `mpsc::channel::<Message>(256)`
abbrev pub channel_capacity : ℕ
channel_capacity = 256

-- Whether the message was taken, and the session with its channel after that.
unfoldable pub try_send : Message → Session → Bool × Session
try_send m x =
    if not x.closed && ltb (length x.queue) channel_capacity
    then (true, record x { queue = x.queue ++ m ∷ [] })
    else (false, x)

-- `send_with_timeout`: while it waits the writing task takes some messages from the channel; if there
-- is no room in time, or the channel is closed, the message is not sent.
unfoldable pub send_with_timeout : ℕ → Message → Session → Bool × Session
unfolding try_send
send_with_timeout taken m x = try_send m (record x { queue = drop taken x.queue })
