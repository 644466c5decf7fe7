-- ===== src/Clientcli.antt =====
-- internal/clientcli/tunnel.go: the commands http and tcp up to the agent that they run. What package
-- flag reads as an integer or a Boolean are parameters; an error is `none`.
pub mod Variables
pub mod Opens
mod Examples
use zerock.Prelude.{
  or_kept, ℕ, Bool, true, false, ◌&&◌, ◌||◌, not, Option, none, some, List, [], ◌∷◌, Text, codes,
  text_eq, text_dec, if◌then◌else◌, is_empty, has_byte, ℤ, pos,
}
use zerock.Server.Tunnel.{type_http, type_tcp}
use zerock.Client.Profiles.{Profile}
use zerock.Client.Agent.{Options}
use zerock.Cliutil.{text_flag, int_flag, bool_flag, FlagSet, Parsed, parse_flags, exact_args}
use zerock.Tray.Spec.{read_port, accepts}

-- The variables of the flags of both commands.
pub record Vars : Type 0 where
  pub sub : Text
  pub host : Text
  pub auth : Text
  pub remote_port : ℤ
  pub no_reconnect : Bool
  pub quiet : Bool
  pub profile : Text

abbrev pub default_vars : Vars
default_vars = record {
  sub = [];
  host = codes "127.0.0.1";
  auth = [];
  remote_port = pos 0;
  no_reconnect = false;
  quiet = false;
  profile = [];
}

abbrev pub http_flags : FlagSet
http_flags =
    (codes "sub", text_flag)
    ∷ (codes "host", text_flag)
    ∷ (codes "auth", text_flag)
    ∷ (codes "no-reconnect", bool_flag)
    ∷ (codes "quiet", bool_flag)
    ∷ (codes "profile", text_flag)
    ∷ []

abbrev pub tcp_flags : FlagSet
tcp_flags =
    (codes "sub", text_flag)
    ∷ (codes "remote-port", int_flag)
    ∷ (codes "host", text_flag)
    ∷ (codes "no-reconnect", bool_flag)
    ∷ (codes "quiet", bool_flag)
    ∷ (codes "profile", text_flag)
    ∷ []

-- tunnelRequest
pub record TunnelRequest : Type 0 where
  pub type : Text
  pub port : ℤ
  pub sub : Text
  pub remote_port : ℤ
  pub local_host : Text
  pub basic_auth : Text
  pub reconnect : Bool
  pub quiet : Bool
  pub profile_name : Text

abbrev pub first_arg : List Text → Text
first_arg [] = []
first_arg (w ∷ ws) = w

-- The port is read as `parseSpecArgs` reads it.
unfoldable pub parse_port_arg : Parsed → Option ℤ
unfolding exact_args read_port
parse_port_arg p = if not (exact_args p 1) then none else read_port (first_arg p.operands)

abbrev pub http_request : Vars → ℤ → TunnelRequest
http_request v port = record {
  type = type_http;
  port = port;
  sub = v.sub;
  remote_port = pos 0;
  local_host = v.host;
  basic_auth = v.auth;
  reconnect = not v.no_reconnect;
  quiet = v.quiet;
  profile_name = v.profile;
}

abbrev pub tcp_request : Vars → ℤ → TunnelRequest
tcp_request v port = record {
  type = type_tcp;
  port = port;
  sub = v.sub;
  remote_port = v.remote_port;
  local_host = v.host;
  basic_auth = [];
  reconnect = not v.no_reconnect;
  quiet = v.quiet;
  profile_name = v.profile;
}

-- The end of `runHTTP`, from the port on.
abbrev pub http_with : Vars → Option ℤ → Option TunnelRequest
http_with v none = none
http_with v (some port) =
    if not (is_empty v.auth) && not (has_byte b':' v.auth) then none else some (http_request v port)

abbrev pub tcp_with : Vars → Option ℤ → Option TunnelRequest
tcp_with v none = none
tcp_with v (some port) = some (tcp_request v port)

-- The options of the agent in `runTunnel`.
unfoldable pub request_options : Profile → TunnelRequest → Options
request_options prof req = record {
  profile = prof;
  type = req.type;
  local_host = req.local_host;
  local_port = req.port;
  subdomain = req.sub;
  remote_port = req.remote_port;
  basic_auth = req.basic_auth;
  reconnect = req.reconnect;
}

module _ (read_int : Text → Option ℤ) (read_bool : Text → Option Bool) where
  -- `Value.Set` on the variable of a flag.
  unfoldable pub assign : Text → Text → Vars → Vars
  unfolding text_dec
  assign name value v =
      if text_eq name (codes "sub")
      then record v { sub = value }
      else if text_eq name (codes "host")
      then record v { host = value }
      else if text_eq name (codes "auth")
      then record v { auth = value }
      else if text_eq name (codes "remote-port")
      then record v { remote_port = or_kept v.remote_port (read_int value) }
      else if text_eq name (codes "no-reconnect")
      then record v { no_reconnect = or_kept v.no_reconnect (read_bool value) }
      else if text_eq name (codes "quiet")
      then record v { quiet = or_kept v.quiet (read_bool value) }
      else if text_eq name (codes "profile")
      then record v { profile = value }
      else v

  unfoldable pub assign_all : List (Text × Text) → Vars → Vars
  unfolding assign
  assign_all [] v = v
  assign_all ((name, value) ∷ settings) v = assign_all settings (assign name value v)

  unfoldable pub http_parsed : Option Parsed → Option TunnelRequest
  unfolding assign_all parse_port_arg
  http_parsed none = none
  http_parsed (some p) = http_with (assign_all p.settings default_vars) (parse_port_arg p)

  unfoldable pub tcp_parsed : Option Parsed → Option TunnelRequest
  unfolding assign_all parse_port_arg
  tcp_parsed none = none
  tcp_parsed (some p) = tcp_with (assign_all p.settings default_vars) (parse_port_arg p)

  -- What `runHTTP` and `runTCP` pass to `runTunnel`.
  unfoldable pub run_http : List Text → Option TunnelRequest
  unfolding http_parsed parse_flags
  run_http words = http_parsed (parse_flags (accepts read_int read_bool) http_flags words)

  unfoldable pub run_tcp : List Text → Option TunnelRequest
  unfolding tcp_parsed parse_flags
  run_tcp words = tcp_parsed (parse_flags (accepts read_int read_bool) tcp_flags words)

  -- The two verbs that open a tunnel, of the table `Commands`.
  unfoldable pub run_verb : List Text → Option TunnelRequest
  unfolding run_http run_tcp text_dec
  run_verb [] = none
  run_verb (verb ∷ words) =
      let http = run_http words in
      let tcp = run_tcp words in
      if text_eq verb type_http then http else if text_eq verb type_tcp then tcp else none
