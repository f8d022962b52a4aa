-- ===== src/Config.antt =====
-- config.hpp and config.cpp: where the connection's parameters come from. The environment, word
-- expansion and the files of fcitx are parameters.
pub mod Resolution
mod Tests
use Prim.Native.String.{◌++◌}
use fcitx5_scribe.Common.{
  ℕ, Bool, true, false, ◌&&◌, not, Option, none, some, String, List, [], ◌∷◌, empty, if◌then◌else◌,
}
use fcitx5_scribe.Error.{Error, Result, ok, unexpected, make_error, config, ConnectionConfig}

-- A `fcitx::Key`, by the text that stands for it in the configuration file.
abbrev pub Key : Type 0
Key = String

-- The fields of `ScribeConfigData`.
pub record ConfigData : Type 0 where
  pub toggle_transcription_key : List Key
  pub socket_path : String
  pub auth_token_env : String
  pub connect_timeout_ms : ℕ

-- The default values of the options.
abbrev pub default_data : ConfigData
default_data = record {
  toggle_transcription_key = [];
  socket_path = "";
  auth_token_env = "";
  connect_timeout_ms = 1000;
}

-- `wordexp` gives the words, or `none` if it does not return 0.
pub record Platform : Type 0 where
  pub getenv : String → Option String
  pub wordexp : String → Option (List String)

pub record Config : Type 0 where
  pub values : ConfigData
  pub resolved_socket_path : String
  pub socket_path_valid : Bool

-- A `Config` before the first `load`.
abbrev pub default_config : Config
default_config = record {
  values = default_data;
  resolved_socket_path = "";
  socket_path_valid = true;
}

pub record ResolvedConnectionConfig : Type 0 where
  pub connection : ConnectionConfig
  pub socket_path_source : String
  pub auth_token_source : String

abbrev pub socket_path_env : String
socket_path_env = "FCITX5_SCRIBE_DEBUG_SOCKET_PATH"

abbrev pub auth_token_env : String
auth_token_env = "FCITX5_SCRIBE_DEBUG_AUTH_TOKEN"

-- A variable that is not set reads as the empty text.
abbrev pub or_empty : Option String → String
or_empty none = ""
or_empty (some value) = value

-- The one word that a path expands to; the empty text is no path.
abbrev pub single_word : Option (List String) → Option String
single_word (some (word ∷ [])) = if empty word then none else some word
single_word _ = none

abbrev pub store_path : Option String → Config → Config
store_path none c = record c { resolved_socket_path = ""; socket_path_valid = false }
store_path (some path) c = record c { resolved_socket_path = path; socket_path_valid = true }

module _ (p : Platform) where
  unfoldable pub read_env : String → String
  read_env name = or_empty (p.getenv name)

  unfoldable pub resolve_socket_path : Config → Config
  resolve_socket_path c =
      if empty c.values.socket_path
      then record c { resolved_socket_path = ""; socket_path_valid = true }
      else store_path (single_word (p.wordexp c.values.socket_path)) c

  -- `read` is `readAsIni`: the data that the file leaves.
  unfoldable pub load : (ConfigData → ConfigData) → Config → Config
  unfolding resolve_socket_path
  load read c = resolve_socket_path (record c { values = read c.values })

  -- `assign` is `data_.load` of a raw configuration; what is saved is the second result.
  unfoldable pub set : (ConfigData → ConfigData) → Config → Config × ConfigData
  unfolding resolve_socket_path
  set assign c =
      let c1 = resolve_socket_path (record c { values = assign c.values }) in (c1, c1.values)

  unfoldable pub effective_socket_path : Config → String
  unfolding read_env
  effective_socket_path c =
      let override = read_env socket_path_env in
      if not (empty override) then override else c.resolved_socket_path

  unfoldable pub effective_socket_path_source : Config → String
  unfolding read_env
  effective_socket_path_source c =
      if not (empty (read_env socket_path_env)) then socket_path_env else "config"

  unfoldable pub configured_auth_token : Config → String
  configured_auth_token c =
      if not (empty c.values.auth_token_env)
      then or_empty (p.getenv c.values.auth_token_env)
      else ""

  unfoldable pub effective_auth_token : Config → String
  unfolding read_env configured_auth_token
  effective_auth_token c =
      let override = read_env auth_token_env in
      if not (empty override) then override else configured_auth_token c

  unfoldable pub effective_auth_token_source : Config → String
  unfolding read_env
  effective_auth_token_source c =
      if not (empty (read_env auth_token_env))
      then auth_token_env
      else if not (empty c.values.auth_token_env)
      then "configured env var " ++ c.values.auth_token_env
      else "config"

  unfoldable pub connection_config : Config → Result ResolvedConnectionConfig
  unfolding read_env effective_socket_path effective_socket_path_source effective_auth_token
      effective_auth_token_source
  connection_config c =
      let socket_path_override = read_env socket_path_env in
      if empty c.values.socket_path && empty socket_path_override
      then unexpected (make_error config "Cannot connect to transcriber: SocketPath is empty")
      else if not (empty c.values.socket_path)
          && (not c.socket_path_valid && empty socket_path_override)
      then unexpected (make_error config "Cannot connect to transcriber: SocketPath is invalid")
      else let token = effective_auth_token c in
        if empty token
        then unexpected (make_error config "Cannot connect to transcriber: auth token is empty")
        else ok (record {
          connection = record {
            socket_path = effective_socket_path c;
            auth_token = token;
            connect_timeout = c.values.connect_timeout_ms;
          };
          socket_path_source = effective_socket_path_source c;
          auth_token_source = effective_auth_token_source c;
        })
