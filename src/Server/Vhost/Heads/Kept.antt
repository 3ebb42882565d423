-- ===== src/Server/Vhost/Heads/Kept.antt =====
-- What a proxy gets of a request whose head the server has read.
use rfrpv.Prelude.{ℕ, ◌+◌, ◌≤◌, ◌≡◌, String, List, [], ◌∷◌, ◌++◌, Bytes, length}
use rfrpv.Text.{Chars}
use rfrpv.Server.Vhost.Heads.{Parse, Tools, Read, max_vhost_head, host_of}

-- The bytes of the reads, up to the first that gives none.
abbrev pub bytes_of : List Read → Bytes
bytes_of [] = []
bytes_of (Read.bytes b ∷ rs) = b ++ bytes_of rs
bytes_of (Read.failed e ∷ rs) = bytes_of rs
bytes_of (Read.timed_out ∷ rs) = bytes_of rs

-- A read fills at most a buffer of this size.
abbrev pub Fits : ℕ → Read → Type 0
Fits size (Read.bytes b) = length b ≤ size
Fits size r = Unit

-- The head that is found is that of all bytes so far, which make a head of headers with this host;
-- they are the first bytes of the stream, and not too many.
pub record Whole (t : Tools) (size : ℕ) (before : Bytes) (rs : List Read) (host : String)
    (buf : Bytes) : Type 0 where
  pub headers : List (Chars × Bytes)
  pub later : List Read
  pub parses : t.parse buf ≡ Parse.complete headers
  pub host_is : host ≡ host_of t headers
  pub stream : buf ++ bytes_of later ≡ before ++ bytes_of rs
  pub small : length buf ≤ max_vhost_head + size
