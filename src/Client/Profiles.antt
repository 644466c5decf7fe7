-- ===== src/Client/Profiles.antt =====
-- internal/client/config.go: the servers and the saved tunnels that the command line knows. The
-- environment's variables are a record, where an unset one is the empty text; the file's reading and
-- writing are not modelled. A map is an association list.
pub mod Servers
pub mod Resolved
use zerock.Prelude.Words.{join_words}
use zerock.Prelude.{
  ℕ, Bool, true, false, ◌&&◌, ◌||◌, not, Option, none, some, List, [], ◌∷◌, ◌++◌, Text, codes,
  text_eq, text_dec, ℤ, pos, ltb_ℤ, eqb_ℤ, if◌then◌else◌, is_empty, to_lower, trim_space, has_byte,
  cut_suffix, cut_prefix, sort, text_lt, length, ◌==◌,
}
use zerock.Prelude.Strings.{trim, trim_right}
use zerock.Prelude.Net.{decimal, atoi, split_host_port, join_host_port}
use zerock.Prelude.Assoc
use zerock.Prelude.Assoc.{Assoc}

abbrev pub default_control_port : ℤ
default_control_port = pos 7223

pub record Profile : Type 0 where
  pub host : Text
  pub control_port : ℤ
  pub token : Text
  pub api_base : Text
  pub insecure : Bool
  pub plaintext : Bool

abbrev pub zero_profile : Profile
zero_profile = record {
  host = [];
  control_port = pos 0;
  token = [];
  api_base = [];
  insecure = false;
  plaintext = false;
}

abbrev pub port_or_default : ℤ → ℤ
port_or_default port = if eqb_ℤ port (pos 0) then default_control_port else port

unfoldable pub control_addr : Profile → Text
unfolding join_host_port decimal
control_addr p = join_host_port p.host (decimal (port_or_default p.control_port))

abbrev pub is_slash : ℕ → Bool
is_slash c = c == b'/'

unfoldable pub api_url : Profile → Text → Text
unfolding trim_right
api_url p path =
    let derived = (if p.plaintext then codes "http://" else codes "https://") ++ p.host in
    trim_right is_slash (if is_empty p.api_base then derived else p.api_base) ++ path

pub record SavedTunnel : Type 0 where
  pub type : Text
  pub port : ℤ
  pub host : Text
  pub subdomain : Text
  pub remote_port : ℤ
  pub basic_auth : Text
  pub profile : Text
  pub autostart : Bool

unfoldable pub local_addr : SavedTunnel → Text
unfolding join_host_port decimal
local_addr t =
    join_host_port (if is_empty t.host then codes "127.0.0.1" else t.host) (decimal t.port)

-- A flag with its value, where it is given.
abbrev pub flag_if : Bool → Text → Text → List Text
flag_if b flag value = if b then flag ∷ value ∷ [] else []

-- The parts that `Args` joins.
unfoldable pub arg_words : SavedTunnel → List Text
unfolding decimal
arg_words t =
    t.type
    ∷ decimal t.port
    ∷ (flag_if (not (is_empty t.subdomain)) (codes "--sub") t.subdomain
        ++ (flag_if (not (is_empty t.host) && not (text_eq t.host (codes "127.0.0.1")))
              (codes "--host") t.host
            ++ (flag_if (not (eqb_ℤ t.remote_port (pos 0))) (codes "--remote-port")
                  (decimal t.remote_port)
                ++ flag_if (not (is_empty t.basic_auth)) (codes "--auth") t.basic_auth)))

unfoldable pub args : SavedTunnel → Text
unfolding arg_words join_words
args t = join_words (arg_words t)

pub record ConfigFile : Type 0 where
  pub default : Text
  pub profiles : Assoc Text Profile
  pub tunnels : Assoc Text SavedTunnel

pub record Env : Type 0 where
  pub profile : Text
  pub server : Text
  pub token : Text
  pub insecure : Text
  pub plaintext : Text
  pub config : Text
  pub xdg_config_home : Text
  -- `none` is an error of `os.UserHomeDir`.
  pub home : Option Text

-- `filepath.Join` of parts that are clean.
abbrev pub in_dir : Text → Text → Text
in_dir dir rest = dir ++ (b'/' ∷ rest)

unfoldable pub config_path : Env → Text
config_path env =
    if not (is_empty env.config)
    then env.config
    else if not (is_empty env.xdg_config_home)
    then in_dir env.xdg_config_home (codes "zerock/config.json")
    else elim env.home [
      | none ↦ codes ".zerock/config.json"
      | some home ↦ in_dir home (codes ".config/zerock/config.json")
    ]

abbrev pub keys {ℓ} : {V : Type ℓ} → Assoc Text V → List Text
keys [] = []
keys ((k, v) ∷ m) = k ∷ keys m

unfoldable pub names : ConfigFile → List Text
unfolding sort text_lt
names c = sort text_lt (keys c.profiles)

unfoldable pub tunnel_names : ConfigFile → List Text
unfolding sort text_lt
tunnel_names c = sort text_lt (keys c.tunnels)

-- The two errors that callers tell apart.
pub data ProfileError : Type 0 where
  bad_server no_profile : ProfileError

pub data Resolution (A : Type 0) : Type 0 where
  ok : A → Resolution A
  err : ProfileError → Resolution A

infixl 5 ◌>>=◌
abbrev pub ◌>>=◌ : {A B : Type 0} → Resolution A → (A → Resolution B) → Resolution B
ok a >>= f = f a
err e >>= f = err e

-- `strings.TrimPrefix` and `strings.TrimSuffix`
abbrev pub or_whole : Text → Option Text → Text
or_whole s none = s
or_whole s (some t) = t

abbrev pub is_dot : ℕ → Bool
is_dot c = c == b'.'

-- The server's name without its scheme, a last slash and the dots around it.
unfoldable pub bare_server : Text → Text
unfolding trim cut_prefix cut_suffix trim_space
bare_server server =
    let s = trim_space server in
    let plain = or_whole s (cut_prefix s (codes "https://")) in
    let bare = or_whole plain (cut_prefix plain (codes "http://")) in
    trim is_dot (or_whole bare (cut_suffix bare (codes "/")))

unfoldable pub checked_port : Text → Option ℤ → Resolution (Text × ℤ)
checked_port host none = err bad_server
checked_port host (some port) =
    if ltb_ℤ port (pos 1) || ltb_ℤ (pos 65535) port
    then err bad_server
    else ok (to_lower host, port)

unfoldable pub split_bare : Text → Resolution (Text × ℤ)
unfolding checked_port
split_bare server = if is_empty server then err bad_server else elim (split_host_port server) [
  | some (host, port) ↦ checked_port host (atoi port)
  | none ↦ if has_byte b'/' server then err bad_server else ok (to_lower server, pos 0)
]

unfoldable pub split_server : Text → Resolution (Text × ℤ)
unfolding split_bare
split_server server = split_bare (bare_server server)

abbrev pub or_zero_profile : Option Profile → Profile
or_zero_profile none = zero_profile
or_zero_profile (some p) = p

abbrev pub first_name : List Text → Text
first_name [] = []
first_name (n ∷ ns) = n

-- The name of the profile to look up: the flag's, the environment's, the default, or the only one.
unfoldable pub chosen_name : ConfigFile → Env → Text → Text
chosen_name c env name =
    let by_env = if is_empty name then env.profile else name in
    let by_default = if is_empty by_env then c.default else by_env in
    if is_empty by_default && length c.profiles == 1 then first_name (names c) else by_default

-- ZEROCK_SERVER, which is parsed.
unfoldable pub with_server : Text → Profile → Resolution Profile
with_server server prof = if is_empty server then ok prof else do
  (host, port) ← split_server server
  ok (record prof { host = host; control_port = port })

unfoldable pub with_env : Env → Profile → Profile
with_env env prof = record prof {
  token = if is_empty env.token then prof.token else env.token;
  insecure = text_eq env.insecure (codes "1") || prof.insecure;
  plaintext = text_eq env.plaintext (codes "1") || prof.plaintext;
}

unfoldable pub resolve : ConfigFile → Env → Text → Resolution (Text × Profile)
resolve c env name = do
  let chosen = chosen_name c env name
  served ← with_server env.server (or_zero_profile (Assoc.find text_dec c.profiles chosen))
  let prof = with_env env served
  if is_empty prof.host || is_empty prof.token
      then err no_profile
      else ok (if is_empty chosen then prof.host else chosen, prof)
