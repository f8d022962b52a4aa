-- ===== src/Error.antt =====
-- error.hpp and types.hpp: the kinds of errors, `Result`, and the connection parameters.
use fcitx5_scribe.Common.{ℕ, String}

pub data ErrorKind : Type 0 where
  config openssl protocol_violation transport state : ErrorKind

pub record Error : Type 0 where
  pub kind : ErrorKind
  pub message : String

pub data Result {ℓ} (A : Type ℓ) : Type ℓ where
  ok : A → Result A
  unexpected : Error → Result A

unfoldable pub make_error : ErrorKind → String → Error
make_error kind message = record { kind = kind; message = message }

unfoldable pub error_kind_name : ErrorKind → String
error_kind_name config = "config"
error_kind_name openssl = "openssl"
error_kind_name protocol_violation = "protocol violation"
error_kind_name transport = "transport"
error_kind_name state = "state"

-- A `uint64_t`.
abbrev pub ContextId : Type 0
ContextId = ℕ

-- The timeout counts milliseconds.
pub record ConnectionConfig : Type 0 where
  pub socket_path : String
  pub auth_token : String
  pub connect_timeout : ℕ
