-- ===== src/Errors.antt =====
-- crates/rfrp-common/src/error.rs: the error type of the libraries, and results. A message is kept
-- without the values that the program formats into it.
use rfrpv.Prelude.{◌≡◌, refl, ℕ, String, Option, none, some}

-- `std::io::ErrorKind`, the kinds that the program tells apart; `other_kind` is any other.
pub data ErrorKind : Type 0 where
  connection_reset connection_aborted connection_refused broken_pipe unexpected_eof : ErrorKind
  timed_out not_connected addr_in_use addr_not_available permission_denied : ErrorKind
  would_block invalid_data invalid_input not_found already_exists interrupted : ErrorKind
  write_zero other_kind : ErrorKind

pub record IoError : Type 0 where
  pub kind : ErrorKind
  pub raw_os_error : Option ℕ

-- The fixed phrase of a kind.
unfoldable pub kind_phrase : ErrorKind → String
kind_phrase ErrorKind.connection_reset = "connection reset by peer"
kind_phrase ErrorKind.connection_aborted = "connection aborted"
kind_phrase ErrorKind.connection_refused = "connection refused"
kind_phrase ErrorKind.broken_pipe = "broken pipe"
kind_phrase ErrorKind.unexpected_eof = "unexpected eof"
kind_phrase ErrorKind.timed_out = "operation timed out"
kind_phrase ErrorKind.not_connected = "not connected"
kind_phrase ErrorKind.addr_in_use = "address already in use"
kind_phrase ErrorKind.addr_not_available = "address not available"
kind_phrase ErrorKind.permission_denied = "permission denied"
kind_phrase ErrorKind.would_block = "operation would block"
kind_phrase ErrorKind.invalid_data = "invalid data"
kind_phrase ErrorKind.invalid_input = "invalid input"
kind_phrase ErrorKind.not_found = "not found"
kind_phrase ErrorKind.already_exists = "already exists"
kind_phrase ErrorKind.interrupted = "interrupted"
kind_phrase ErrorKind.write_zero = "write zero"
kind_phrase ErrorKind.other_kind = "io error"

-- The phrase, and the code that is printed behind it as " (os error N)".
unfoldable pub describe_io_error : IoError → String × Option ℕ
unfolding kind_phrase
describe_io_error e = (kind_phrase e.kind, e.raw_os_error)

pub data Error : Type 0 where
  io : IoError → Error
  json toml : Error
  protocol config auth other : String → Error

pub data Result {ℓ} (A : Type ℓ) : Type ℓ where
  err : Error → Result A
  ok : A → Result A

abbrev pub io_kind : ErrorKind → Error
io_kind k = io (record { kind = k; raw_os_error = none })

module _ {ℓ} {A : Type ℓ} where
  -- `opt.ok_or_else(|| e)`
  abbrev pub ok_or : Option A → Error → Result A
  ok_or none why = err why
  ok_or (some value) why = ok value

  module _ {κ} {B : Type κ} where
    -- The `?` operator.
    infixl 5 ◌>>=◌
    abbrev pub ◌>>=◌ : Result A → (A → Result B) → Result B
    err why >>= next = err why
    ok value >>= next = next value

    -- Inversion of a successful `?`.
    pub bind-eq-ok :
        (first : Result A) (next : A → Result B) {result : B}
        → (first >>= next) ≡ ok result
        → (value : A) × (first ≡ ok value) × (next value ≡ ok result)
    bind-eq-ok (err why) next h = cc
    bind-eq-ok (ok value) next h = (value, refl, h)
