-- ===== src/Protocol/Messages.antt =====
-- The message types of crates/rfrp-common/src/protocol/msg.rs and their frames. The encoding of
-- each payload as JSON is serde's, and comes in as a parameter.
pub mod RoundTrip
use rfrpv.Prelude.{ℕ, String, Bool, Option, List, Bytes, if◌then◌else◌, nat_beq, ◌≡◌}
use rfrpv.Constants.{protocol_version}
use rfrpv.Errors.{Error, Result, ok, err, ◌>>=◌}
use rfrpv.Protocol.Frame.{Frame}

abbrev pub msg_login : ℕ
msg_login = 0x01

abbrev pub msg_login_resp : ℕ
msg_login_resp = 0x02

abbrev pub msg_new_proxy : ℕ
msg_new_proxy = 0x03

abbrev pub msg_new_proxy_resp : ℕ
msg_new_proxy_resp = 0x04

abbrev pub msg_heartbeat : ℕ
msg_heartbeat = 0x05

abbrev pub msg_heartbeat_resp : ℕ
msg_heartbeat_resp = 0x06

abbrev pub msg_req_work_conn : ℕ
msg_req_work_conn = 0x07

abbrev pub msg_start_work_conn : ℕ
msg_start_work_conn = 0x08

abbrev pub msg_close : ℕ
msg_close = 0x09

pub data ProxyType : Type 0 where
  tcp udp http https : ProxyType

-- Tokens are lists of bytes: the program only compares and measures them.
pub record Login : Type 0 where
  pub run_id : String
  pub token : Bytes
  pub version : ℕ

pub record LoginResp : Type 0 where
  pub accepted : Bool
  pub error : Option String
  pub session_id : Option String
  pub work_conn_tls : Option Bool
  pub work_conn_token : Option Bytes

pub record NewProxy : Type 0 where
  pub proxy_name : String
  pub type : ProxyType
  pub remote_port : Option ℕ
  pub custom_domains : Option (List String)

pub record NewProxyResp : Type 0 where
  pub proxy_name : String
  pub accepted : Bool
  pub error : Option String

pub record Heartbeat : Type 0 where
  pub ts : ℕ

pub record HeartbeatResp : Type 0 where
  pub ts : ℕ

pub record ReqWorkConn : Type 0 where
  pub proxy_name : String
  pub work_id : ℕ

pub record StartWorkConn : Type 0 where
  pub proxy_name : String
  pub work_id : ℕ
  pub work_conn_token : Option Bytes

pub record Close : Type 0 where
  pub reason : Option String

pub data Message : Type 0 where
  login : Login → Message
  login_resp : LoginResp → Message
  new_proxy : NewProxy → Message
  new_proxy_resp : NewProxyResp → Message
  heartbeat : Heartbeat → Message
  heartbeat_resp : HeartbeatResp → Message
  req_work_conn : ReqWorkConn → Message
  start_work_conn : StartWorkConn → Message
  close : Close → Message

unfoldable pub msg_type : Message → ℕ
msg_type (Message.login m) = msg_login
msg_type (Message.login_resp m) = msg_login_resp
msg_type (Message.new_proxy m) = msg_new_proxy
msg_type (Message.new_proxy_resp m) = msg_new_proxy_resp
msg_type (Message.heartbeat m) = msg_heartbeat
msg_type (Message.heartbeat_resp m) = msg_heartbeat_resp
msg_type (Message.req_work_conn m) = msg_req_work_conn
msg_type (Message.start_work_conn m) = msg_start_work_conn
msg_type (Message.close m) = msg_close

-- `serde_json::to_vec` and `serde_json::from_slice` at one type. What was written is read back:
-- the derived implementations leave out an absent optional field and read its absence as `None`.
pub record JsonFormat (T : Type 0) : Type 0 where
  pub to_vec : T → Result Bytes
  pub from_slice : Bytes → Result T
  pub from_slice-to_vec : (m : T) (b : Bytes) → to_vec m ≡ ok b → from_slice b ≡ ok m

pub record Json : Type 0 where
  pub login_json : JsonFormat Login
  pub login_resp_json : JsonFormat LoginResp
  pub new_proxy_json : JsonFormat NewProxy
  pub new_proxy_resp_json : JsonFormat NewProxyResp
  pub heartbeat_json : JsonFormat Heartbeat
  pub heartbeat_resp_json : JsonFormat HeartbeatResp
  pub req_work_conn_json : JsonFormat ReqWorkConn
  pub start_work_conn_json : JsonFormat StartWorkConn
  pub close_json : JsonFormat Close

unfoldable pub to_payload : Json → Message → Result Bytes
to_payload j (Message.login m) = j.login_json.to_vec m
to_payload j (Message.login_resp m) = j.login_resp_json.to_vec m
to_payload j (Message.new_proxy m) = j.new_proxy_json.to_vec m
to_payload j (Message.new_proxy_resp m) = j.new_proxy_resp_json.to_vec m
to_payload j (Message.heartbeat m) = j.heartbeat_json.to_vec m
to_payload j (Message.heartbeat_resp m) = j.heartbeat_resp_json.to_vec m
to_payload j (Message.req_work_conn m) = j.req_work_conn_json.to_vec m
to_payload j (Message.start_work_conn m) = j.start_work_conn_json.to_vec m
to_payload j (Message.close m) = j.close_json.to_vec m

unfoldable pub to_frame : Json → Message → Result Frame
unfolding to_payload msg_type
to_frame j m = do
  payload ← to_payload j m
  ok (record { version = protocol_version; msg_type = msg_type m; payload = payload })

abbrev pub wrap {ℓ} : {A : Type ℓ} → (A → Message) → Result A → Result Message
wrap c r = r >>= λ m. ok (c m)

unfoldable pub from_frame : Json → Frame → Result Message
from_frame j f =
    if nat_beq f.msg_type msg_login
    then wrap Message.login (j.login_json.from_slice f.payload)
    else if nat_beq f.msg_type msg_login_resp
    then wrap Message.login_resp (j.login_resp_json.from_slice f.payload)
    else if nat_beq f.msg_type msg_new_proxy
    then wrap Message.new_proxy (j.new_proxy_json.from_slice f.payload)
    else if nat_beq f.msg_type msg_new_proxy_resp
    then wrap Message.new_proxy_resp (j.new_proxy_resp_json.from_slice f.payload)
    else if nat_beq f.msg_type msg_heartbeat
    then wrap Message.heartbeat (j.heartbeat_json.from_slice f.payload)
    else if nat_beq f.msg_type msg_heartbeat_resp
    then wrap Message.heartbeat_resp (j.heartbeat_resp_json.from_slice f.payload)
    else if nat_beq f.msg_type msg_req_work_conn
    then wrap Message.req_work_conn (j.req_work_conn_json.from_slice f.payload)
    else if nat_beq f.msg_type msg_start_work_conn
    then wrap Message.start_work_conn (j.start_work_conn_json.from_slice f.payload)
    else if nat_beq f.msg_type msg_close
    then wrap Message.close (j.close_json.from_slice f.payload)
    else err (Error.protocol "unknown msg_type")
