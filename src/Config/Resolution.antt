-- ===== src/Config/Resolution.antt =====
-- Which parameters a configuration resolves to, as a search through its sources in order.
use Prim.Native.String.{◌++◌}
use mathlib.Core.Bool.{true≢false}
use fcitx5_scribe.Common.{
  ◌≡◌, ◌⊎◌, refl, sym, ◌∙◌, false, Option, none, some, String, List, [], ◌∷◌, arith, empty,
  if◌then◌else◌, Bool-cases, inl, inr,
}
use fcitx5_scribe.Error.{Result, ok, unexpected, make_error, config}
use fcitx5_scribe.Config.{
  Config, ConfigData, Platform, ResolvedConnectionConfig, or_empty, single_word, store_path,
  socket_path_env, auth_token_env, resolve_socket_path, load, set, connection_config,
}

-- A text and where it comes from.
abbrev pub Source : Type 0
Source = String × String

-- The first source whose text is not empty.
abbrev pub first_source : List Source → Option Source
first_source [] = none
first_source ((text, name) ∷ rest) = if empty text then first_source rest else some (text, name)

abbrev pub socket_sources : Platform → Config → List Source
socket_sources p c =
    (or_empty (p.getenv socket_path_env), socket_path_env) ∷ (c.resolved_socket_path, "config") ∷ []

-- The configured variable is a source only if it is named.
abbrev pub configured_token : Platform → String → String
configured_token p name = if empty name then "" else or_empty (p.getenv name)

abbrev pub token_sources : Platform → Config → List Source
token_sources p c =
    (or_empty (p.getenv auth_token_env), auth_token_env)
    ∷ (configured_token p c.values.auth_token_env, "configured env var " ++ c.values.auth_token_env)
    ∷ []

abbrev pub socket_error : Config → String
socket_error c =
    if empty c.values.socket_path
    then "Cannot connect to transcriber: SocketPath is empty"
    else "Cannot connect to transcriber: SocketPath is invalid"

-- The path first, then the token; the first that has no source is the error.
abbrev pub resolve_from : Config → Option Source → Option Source → Result ResolvedConnectionConfig
resolve_from c none token = unexpected (make_error config (socket_error c))
resolve_from c (some path) none =
    unexpected (make_error config "Cannot connect to transcriber: auth token is empty")
resolve_from c (some (path, path_source)) (some (token, token_source)) = ok (record {
  connection = record {
    socket_path = path;
    auth_token = token;
    connect_timeout = c.values.connect_timeout_ms;
  };
  socket_path_source = path_source;
  auth_token_source = token_source;
})

resolved-search :
    (p : Platform) (c : Config)
    → let r = resolve_socket_path p c in
      connection_config p r
      ≡ resolve_from r (first_source (socket_sources p r)) (first_source (token_sources p r))
unfolding connection_config resolve_socket_path
resolved-search p c = ground arith

-- After a load from disk the parameters, their recorded sources and the errors are those of a search
-- through the sources in order: the debug variable before the configuration, the path before the
-- token.
pub load-search :
    (p : Platform) (read : ConfigData → ConfigData) (c : Config)
    → let r = load p read c in
      connection_config p r
      ≡ resolve_from r (first_source (socket_sources p r)) (first_source (token_sources p r))
unfolding load
load-search p read c = resolved-search p (record c { values = read c.values })

-- After a change from the settings dialog, too, the parameters, their sources and the errors are
-- those of a search through the sources in order, and what is saved is what was set, without the
-- path's expansion and the debug variables.
pub set-search :
    (p : Platform) (assign : ConfigData → ConfigData) (c : Config)
    → let (r, saved) = set p assign c in
      (connection_config p r
        ≡ resolve_from r (first_source (socket_sources p r)) (first_source (token_sources p r)))
      × (saved ≡ assign c.values)
unfolding set resolve_socket_path
set-search p assign c = (resolved-search p (record c { values = assign c.values }), ground arith)

or_empty-some : (o : Option String) → empty (or_empty o) ≡ false → o ≡ some (or_empty o)
or_empty-some none h = cc
or_empty-some (some s) h = refl

stored_word :
    (o : Option (List String)) (c : Config)
    → let path = (store_path (single_word o) c).resolved_socket_path in
      empty path ≡ false → o ≡ some (path ∷ [])
stored_word none c h = cc
stored_word (some []) c h = cc
stored_word (some (w ∷ [])) c h = elim (Bool-cases (empty w)) [
  | inl e ↦ absurd (true≢false (rw (e, store_path) at h))
  | inr e ↦ rw (e, store_path)
]
stored_word (some (x ∷ y ∷ rest)) c h = cc

resolved_word :
    (p : Platform) (c : Config)
    → let r = resolve_socket_path p c in
      empty r.resolved_socket_path ≡ false
      → p.wordexp c.values.socket_path ≡ some (r.resolved_socket_path ∷ [])
unfolding resolve_socket_path
resolved_word p c h = elim (Bool-cases (empty c.values.socket_path)) [
  | inl e ↦ absurd (true≢false (rw (e, resolve_socket_path) at h))
  | inr e ↦ rw (e, resolve_socket_path) (stored_word _ c (rw (e, resolve_socket_path) at h))
]

-- Parameters that are handed out have a path and a token, and the timeout of the settings; a path
-- that is not the debug variable's is the one word that the settings expand to.
pub load-usable :
    (p : Platform) (read : ConfigData → ConfigData) (c : Config) (r : ResolvedConnectionConfig)
    → connection_config p (load p read c) ≡ ok r
    → (empty r.connection.socket_path ≡ false)
      × (empty r.connection.auth_token ≡ false)
      × (r.connection.connect_timeout ≡ (read c.values).connect_timeout_ms)
      × ((p.getenv socket_path_env ≡ some r.connection.socket_path)
          ⊎ (p.wordexp (read c.values).socket_path ≡ some (r.connection.socket_path ∷ [])))
unfolding load
load-usable p read c r h =
    let found = sym (load-search p read c) ∙ h in
    ground (
      arith,
      or_empty-some (p.getenv socket_path_env),
      resolved_word p (record c { values = read c.values }),
    )

-- A configuration that was saved by the settings dialog and is read again, by whatever configuration
-- in the same environment, is the same, if the file gives back what was saved.
pub load-set :
    (p : Platform) (assign read : ConfigData → ConfigData) (c d : Config)
    → read d.values ≡ (set p assign c).1
    → load p read d ≡ (set p assign c).0
unfolding load set resolve_socket_path
load-set p assign read c d h = ground (arith, h)
