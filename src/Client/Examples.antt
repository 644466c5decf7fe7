-- ===== src/Client/Examples.antt =====
-- The theorems on the client at concrete inputs, and tests of its functions.
use zerock.Prelude.{
  ◌≡◌, refl, true, none, [], ◌∷◌, codes, text_dec, pos, ℕ_discrete, to_lower, trim_space,
  cut_prefix, cut_suffix, has_byte,
}
use zerock.Prelude.Strings.{lower_byte, trim}
use zerock.Prelude.Net.{atoi, split_host_port}
use zerock.Prelude.Assoc
use zerock.Client.Profiles.{
  Profile, zero_profile, ConfigFile, Env, ok, err, bad_server, control_addr, split_server,
  split_bare, bare_server, checked_port, resolve, chosen_name, with_server, with_env, names,
}
use zerock.Client.Profiles.Servers.{IsHost, split_server-control_addr}
use zerock.Client.Profiles.Resolved.{IsResolved, resolve_lem}

abbrev home : Profile
home = record zero_profile { host = codes "zerock.example.com"; token = codes "zk_ab_cd" }

home-IsHost : IsHost home.host
home-IsHost = record { some_byte = refl; bytes = refl; first = refl }

split_server-control_addr_example : split_server (control_addr home) ≡ ok (home.host, pos 7223)
split_server-control_addr_example = split_server-control_addr home 0 home-IsHost refl refl

splits_url :
    split_server (codes " https://Zerock.example.com:443/ ")
    ≡ ok (codes "zerock.example.com", pos 443)
unfolding split_server split_bare bare_server checked_port split_host_port atoi to_lower lower_byte
    trim_space trim cut_prefix cut_suffix has_byte text_dec ℕ_discrete
splits_url = refl

refuses_path : split_server (codes "https://zerock.example.com/api") ≡ err bad_server
unfolding split_server split_bare bare_server checked_port split_host_port atoi to_lower lower_byte
    trim_space trim cut_prefix cut_suffix has_byte text_dec ℕ_discrete
refuses_path = refl

abbrev file : ConfigFile
file = record { default = []; profiles = (codes "home", home) ∷ []; tunnels = [] }

abbrev env : Env
env = record {
  profile = [];
  server = [];
  token = codes "zk_ef_gh";
  insecure = [];
  plaintext = codes "1";
  config = [];
  xdg_config_home = [];
  home = none;
}

abbrev resolved : Profile
resolved = record home { token = codes "zk_ef_gh"; plaintext = true }

resolves : resolve file env [] ≡ ok (codes "home", resolved)
unfolding resolve chosen_name with_server with_env names Assoc.find text_dec ℕ_discrete
resolves = refl

resolve_lem_example : IsResolved file env [] (codes "home") resolved
resolve_lem_example = resolve_lem file env [] (codes "home") resolved resolves
