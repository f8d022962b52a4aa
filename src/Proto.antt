-- ===== src/Proto.antt =====
-- scribe.proto: the messages of `scribe.v0`. A `bytes` field is a list of bytes, a `string` field a
-- text; the generated accessors are the fields.
use fcitx5_scribe.Common.{ℕ, String, Bool, List, ℤ}

abbrev pub Bytes : Type 0
Bytes = List ℕ

pub record ClientHello : Type 0 where
  pub protocol_version : String
  pub client_name : String
  pub client_nonce : Bytes

pub record ServerHello : Type 0 where
  pub protocol_version : String
  pub accepted : Bool
  pub error_message : String
  pub server_nonce : Bytes
  pub proof : Bytes

pub record StartSession : Type 0 where
  pub session_id : Bytes

-- The reasons that the program sends.
pub data InterruptReason : Type 0 where
  unspecified toggle focus_lost focus_changed input_context_destroyed transport_failure :
      InterruptReason

pub record InterruptSession : Type 0 where
  pub session_id : Bytes
  pub reason : InterruptReason

-- `sequence_no` is a `uint64`.
pub record CommitText : Type 0 where
  pub session_id : Bytes
  pub sequence_no : ℕ
  pub text : String

pub record VadTimeout : Type 0 where
  pub session_id : Bytes

-- `code` is the number of an open enumeration.
pub record ProtoError : Type 0 where
  pub session_id : Bytes
  pub code : ℤ
  pub message : String

-- The `oneof` of `Envelope`, which may be unset.
pub data Envelope : Type 0 where
  not_set : Envelope
  client_hello : ClientHello → Envelope
  server_hello : ServerHello → Envelope
  start_session : StartSession → Envelope
  interrupt_session : InterruptSession → Envelope
  commit_text : CommitText → Envelope
  vad_timeout : VadTimeout → Envelope
  error : ProtoError → Envelope
