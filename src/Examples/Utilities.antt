-- ===== src/Examples/Utilities.antt =====
-- The utilities and the settings of the server.
use rfrpv.Prelude.{ℕ, ◌≡◌, ◌↔◌, refl, List, false, none, some, [], ◌∷◌, All, arith, nat_eq}
use rfrpv.Map.{get}
use rfrpv.Errors.{ok}
use rfrpv.Text.{codes}
use rfrpv.Util.RateLimit.{new_limiter, allow_each}
use rfrpv.Util.RateLimit.Window.{passed, allow_each-passed}
use rfrpv.Util.Counting.{Totals, Io, new_stream, transfer_all, drop_stream, credit, leave}
use rfrpv.Util.Counting.Batches.{drop_stream-transfer_all, IsSmall, bytes_read, bytes_written}
use rfrpv.Util.Http.{html_escape}
use rfrpv.Util.Http.Escape.{html_escape_lem, IsPlain, read_chars}
use rfrpv.Config.Server.{ServerConfig, default_section, validate}
use rfrpv.Config.Server.Valid.{IsValid, validate_iff}

allow_each-passed_example :
    passed 1
      ((1, 100) ∷ (1, 101) ∷ (2, 102) ∷ (1, 103) ∷ [])
      (allow_each ((1, 100) ∷ (1, 101) ∷ (2, 102) ∷ (1, 103) ∷ []) (new_limiter 2 60)).0
    ≡ 2
unfolding get
allow_each-passed_example =
    allow_each-passed 1 100 ((1, 101) ∷ (2, 102) ∷ (1, 103) ∷ []) (new_limiter 2 60) refl
      (omega arith) (omega arith)

abbrev totals : Totals
totals = record { read = 0; write = 5; active = 2 }

abbrev moves : List (ℕ × Io)
moves = (10, Io.reads 300000) ∷ (11, Io.writes 7) ∷ (12, Io.reads 1) ∷ []

drop_stream-transfer_all_example :
    let grown = λ (t : Totals). leave (credit (bytes_read moves) (bytes_written moves) t) in
    (drop_stream 20 (transfer_all moves (new_stream totals 0)) ≡ (grown totals, none))
    × IsSmall (transfer_all moves (new_stream totals 0))
unfolding new_stream
drop_stream-transfer_all_example = drop_stream-transfer_all moves (new_stream totals 0) 20 refl refl

html_escape_lem_example :
    All IsPlain (html_escape (codes "<a & 'b'>"))
    × (read_chars 9 (html_escape (codes "<a & 'b'>")) ≡ codes "<a & 'b'>")
html_escape_lem_example = html_escape_lem (codes "<a & 'b'>")

abbrev plain_config : ServerConfig
plain_config = record {
  server = record default_section { token = "secret"; work_conn_tls = false };
  dashboard =
      some (record { addr = "127.0.0.1:7500"; user = codes "ann"; password = codes "secret" });
  proxy = record {
    allow_ports = codes "2000-3000";
    vhost_http_port = some 80;
    vhost_https_port = none;
    vhost_tls_cert = none;
    vhost_tls_key = none;
  };
}

validate_iff_example :
    (validate (λ path. false) (λ addr. some 7500) plain_config ≡ ok tt)
    ↔ IsValid (λ path. false) (λ addr. some 7500) plain_config
validate_iff_example = validate_iff (λ path. false) (λ addr. some 7500) plain_config
