-- ===== src/Config/Tests.antt =====
-- The scenarios of tests/config.cpp, and the theorems at them.
use text.Mathlib.Text.{◌==◌}
use fcitx5_scribe.Common.{◌≡◌, refl, true, Option, none, some, String, [], ◌∷◌, if◌then◌else◌}
use fcitx5_scribe.Error.{ok}
use fcitx5_scribe.Config.{
  Config, ConfigData, Platform, ResolvedConnectionConfig, connection_config, load, set,
  socket_path_env, auth_token_env,
}
use fcitx5_scribe.Config.Resolution.{
  first_source, socket_sources, token_sources, resolve_from, load-search, load-set,
}

abbrev test_data : ConfigData
test_data = record {
  toggle_transcription_key = [];
  socket_path = "/tmp/config.sock";
  auth_token_env = "SCRIBE_TEST_AUTH_TOKEN";
  connect_timeout_ms = 3210;
}

abbrev blank : Config
blank = record {
  values = record {
    toggle_transcription_key = [];
    socket_path = "";
    auth_token_env = "";
    connect_timeout_ms = 1000;
  };
  resolved_socket_path = "";
  socket_path_valid = true;
}

-- The environments of the tests: with both debug variables, and without.
abbrev debugging : String → Option String
debugging name =
    if name == socket_path_env
    then some "/run/user/1000/fcitx5-scribe/dev.sock"
    else if name == auth_token_env
    then some "dev-secret"
    else some "config-secret"

abbrev plain : String → Option String
plain name = if name == "SCRIBE_TEST_AUTH_TOKEN" then some "config-secret" else none

abbrev platform : (String → Option String) → Platform
platform env = record { getenv = env; wordexp = λ text. some (text ∷ []) }

abbrev loaded : (String → Option String) → Config
loaded env = load (platform env) (λ _. test_data) blank

abbrev resolved_plain : ResolvedConnectionConfig
resolved_plain = record {
  connection = record {
    socket_path = "/tmp/config.sock";
    auth_token = "config-secret";
    connect_timeout = 3210;
  };
  socket_path_source = "config";
  auth_token_source = "configured env var SCRIBE_TEST_AUTH_TOKEN";
}

overrides_win :
    connection_config (platform debugging) (loaded debugging)
    ≡ ok (record {
      connection = record {
        socket_path = "/run/user/1000/fcitx5-scribe/dev.sock";
        auth_token = "dev-secret";
        connect_timeout = 3210;
      };
      socket_path_source = socket_path_env;
      auth_token_source = auth_token_env;
    })
unfolding connection_config load
overrides_win = refl

settings_used : connection_config (platform plain) (loaded plain) ≡ ok resolved_plain
unfolding connection_config load
settings_used = refl

load-search_example :
    connection_config (platform plain) (loaded plain)
    ≡ resolve_from
        (loaded plain)
        (first_source (socket_sources (platform plain) (loaded plain)))
        (first_source (token_sources (platform plain) (loaded plain)))
load-search_example = load-search (platform plain) (λ _. test_data) blank

-- The dialog saves the data of the test; another configuration reads them.
load-set_example :
    load (platform plain) (λ _. test_data) blank ≡ (set (platform plain) (λ _. test_data) blank).0
unfolding set
load-set_example = load-set (platform plain) (λ _. test_data) (λ _. test_data) blank blank refl
