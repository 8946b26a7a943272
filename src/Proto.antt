-- ===== src/Proto.antt =====
-- The frames of internal/proto/frame.go. `FrameType` stands for the field `Type`: a constructor for
-- each value that one of the two sides sends or tests for, and `other` for any other text, which both
-- sides ignore. Bodies are lists of bytes, a header map is an association list of names and values.
use selftunnel.Common.{ℕ, Bool, false, List, [], Text}

pub data FrameType : Type 0 where
  hello hello_ack ping pong set_target set_target_ack get_stats stats : FrameType
  request_start request_chunk request_end : FrameType
  response_start response_chunk response_end : FrameType
  cancel : FrameType
  other : Text → FrameType

abbrev pub Headers : Type 0
Headers = List (Text × List Text)

pub record Frame : Type 0 where
  pub type : FrameType
  pub version : ℕ
  pub desired_id : Text
  pub secret : Text
  pub client_type : Text
  pub ext_version : Text
  pub ok : Bool
  pub tunnel_id : Text
  pub error : Text
  pub id_reused : Bool
  pub desired_denied : Bool
  pub ts : ℕ
  pub target : Text
  pub forwarded : ℕ
  pub req_id : ℕ
  pub method : Text
  pub path : Text
  pub query : Text
  pub headers : Headers
  pub has_body : Bool
  pub seq : ℕ
  pub payload : Text
  pub status : ℕ

abbrev pub hello_version : ℕ
hello_version = 1

-- `&proto.Frame{Type: t}`: every other field has its zero value.
abbrev pub frame : FrameType → Frame
frame t = record {
  type = t;
  version = 0;
  desired_id = [];
  secret = [];
  client_type = [];
  ext_version = [];
  ok = false;
  tunnel_id = [];
  error = [];
  id_reused = false;
  desired_denied = false;
  ts = 0;
  target = [];
  forwarded = 0;
  req_id = 0;
  method = [];
  path = [];
  query = [];
  headers = [];
  has_body = false;
  seq = 0;
  payload = [];
  status = 0;
}
