-- ===== src/Server/Config.antt =====
-- internal/server/config.go: the configuration, its normal form, and the subdomain of a host.
pub mod Normal
pub mod Hosts
use zerock.Prelude.{
  ℕ, Bool, true, false, ◌&&◌, ◌||◌, not, Option, none, some, List, [], ◌∷◌, ◌++◌, Text, codes,
  text_eq, text_dec, member, ℤ, pos, leb_ℤ, ltb_ℤ, ◌==◌, if◌then◌else◌, is_empty, to_lower,
  trim_space, has_byte, cut_suffix,
}
use zerock.Prelude.Strings.{trim}

abbrev pub tls_auto : Text
tls_auto = codes "auto"

abbrev pub tls_files : Text
tls_files = codes "files"

abbrev pub tls_off : Text
tls_off = codes "off"

pub record TlsConfig : Type 0 where
  pub mode : Text
  pub email : Text
  pub ca : Text
  pub dns_provider : Text
  pub dns_api_token : Text
  pub cert_file : Text
  pub key_file : Text
  pub dns_propagation_delay : Text
  pub include_apex : Bool
  pub dns_propagation_timeout : Text

pub record PortRange : Type 0 where
  pub from : ℤ
  pub to : ℤ

pub record Config : Type 0 where
  pub domain : Text
  pub control_addr : Text
  pub http_addr : Text
  pub https_addr : Text
  pub admin_addr : Text
  pub api_host : Text
  pub data_dir : Text
  pub tls : TlsConfig
  pub reserved_subdomains : List Text
  pub tcp_port_range : PortRange
  pub max_reservations_per_token : ℤ
  pub trust_proxy_headers : Bool

abbrev pub default_config : Config
default_config = record {
  domain = [];
  control_addr = codes ":7223";
  http_addr = codes ":80";
  https_addr = codes ":443";
  admin_addr = codes "127.0.0.1:7224";
  api_host = [];
  data_dir = codes "/var/lib/zerock";
  tls = record {
    mode = tls_auto;
    email = [];
    ca = [];
    dns_provider = codes "cloudflare";
    dns_api_token = [];
    cert_file = [];
    key_file = [];
    dns_propagation_delay = [];
    include_apex = false;
    dns_propagation_timeout = [];
  };
  reserved_subdomains =
      codes "www" ∷ codes "mail" ∷ codes "admin" ∷ codes "api" ∷ codes "zerock" ∷ [];
  tcp_port_range = record { from = pos 20000; to = pos 20999 };
  max_reservations_per_token = pos 20;
  trust_proxy_headers = false;
}

pub data ConfigError : Type 0 where
  domain_required domain_shape unknown_mode bad_port_range no_data_dir : ConfigError
  dns_provider_unsupported dns_api_token_required files_required bad_duration : ConfigError

pub data Checked {ℓ} (A : Type ℓ) : Type ℓ where
  ok : A → Checked A
  err : ConfigError → Checked A

abbrev pub is_dot : ℕ → Bool
is_dot c = c == b'.'

-- The three variables of the environment; an unset one reads as the empty text.
pub record Env : Type 0 where
  pub dns_api_token : Text
  pub domain : Text
  pub acme_email : Text

abbrev pub or_else : Text → Text → Text
or_else v old = if is_empty v then old else v

unfoldable pub apply_env : Env → Config → Config
apply_env env c = record c {
  tls = record c.tls {
    dns_api_token = or_else env.dns_api_token c.tls.dns_api_token;
    email = or_else env.acme_email c.tls.email;
  };
  domain = or_else env.domain c.domain;
}

-- What follows the cut of the suffix in `subdomainOf`.
unfoldable pub one_label : Option Text → Option Text
one_label none = none
one_label (some label) = if is_empty label || has_byte b'.' label then none else some label

-- `subdomainOf`, on the configured domain.
unfoldable pub subdomain_of : Text → Text → Option Text
unfolding to_lower trim cut_suffix one_label has_byte
subdomain_of domain host = one_label (cut_suffix (to_lower (trim is_dot host)) (b'.' ∷ domain))

-- One round of the loop over the reserved subdomains; what was seen is what was put out.
unfoldable pub admit_reserved : Text → List Text → List Text
admit_reserved s out = if is_empty s || member s out then out else out ++ s ∷ []

unfoldable pub reserved_loop : List Text → List Text → List Text
unfolding admit_reserved to_lower trim_space
reserved_loop [] out = out
reserved_loop (s ∷ rest) out = reserved_loop rest (admit_reserved (to_lower (trim_space s)) out)

abbrev pub with_label : Option Text → List Text → List Text
with_label none reserved = reserved
with_label (some label) reserved = reserved ++ label ∷ []

unfoldable pub normal_domain : Text → Text
unfolding to_lower trim trim_space
normal_domain domain = to_lower (trim is_dot (trim_space domain))

unfoldable pub normal_api_host : Text → Text → Text
unfolding to_lower
normal_api_host domain api_host =
    to_lower (if is_empty api_host then codes "zerock." ++ domain else api_host)

unfoldable pub normal_mode : Text → Option Text
unfolding text_dec
normal_mode mode =
    if is_empty mode
    then some tls_auto
    else if text_eq mode tls_auto || text_eq mode tls_files || text_eq mode tls_off
    then some mode
    else none

-- The configuration that passes all checks, with the domain and the mode in normal form.
unfoldable pub normalized : Config → Text → Text → Config
normalized c domain mode = record c {
  domain = domain;
  api_host = normal_api_host domain c.api_host;
  tls = record c.tls { mode = mode };
  reserved_subdomains =
      reserved_loop
        (with_label (subdomain_of domain (normal_api_host domain c.api_host)) c.reserved_subdomains)
        [];
}

-- The checks of `normalize` after the one of the mode.
unfoldable pub check_rest : Config → Text → Text → Checked Config
check_rest c domain mode =
    if leb_ℤ c.tcp_port_range.from (pos 0) || ltb_ℤ c.tcp_port_range.to c.tcp_port_range.from
    then err bad_port_range
    else if is_empty c.data_dir
    then err no_data_dir
    else ok (normalized c domain mode)

unfoldable pub normalize : Config → Checked Config
normalize c =
    let domain = normal_domain c.domain in
    if is_empty domain
    then err domain_required
    else if not (has_byte b'.' domain)
    then err domain_shape
    else elim (normal_mode c.tls.mode) [
      | none ↦ err unknown_mode
      | some mode ↦ check_rest c domain mode
    ]

-- `time.ParseDuration` is read through whether it accepts a text.
unfoldable pub bad_setting : (Text → Bool) → Text → Bool
bad_setting parses value = if is_empty value then false else not (parses value)

unfoldable pub validate_for_serving : (Text → Bool) → Config → Checked Config
unfolding bad_setting
validate_for_serving parses c =
    let durations =
      if bad_setting parses c.tls.dns_propagation_delay
        || bad_setting parses c.tls.dns_propagation_timeout
      then err bad_duration
      else ok c in
    let files =
      if text_eq c.tls.mode tls_files && (is_empty c.tls.cert_file || is_empty c.tls.key_file)
      then err files_required
      else durations in
    if text_eq c.tls.mode tls_auto
    then (if not (member c.tls.dns_provider (codes "cloudflare" ∷ codes "digitalocean" ∷ []))
        then err dns_provider_unsupported
        else if is_empty c.tls.dns_api_token
        then err dns_api_token_required
        else files)
    else files

-- `LoadConfig` on the configuration that the file holds over the defaults.
unfoldable pub load_config : (Text → Bool) → Env → Config → Checked Config
load_config parses env parsed = elim (normalize (apply_env env parsed)) [
  | err e ↦ err e
  | ok c ↦ validate_for_serving parses c
]

unfoldable pub is_reserved : Config → Text → Bool
is_reserved c sub = member sub c.reserved_subdomains

unfoldable pub scheme : Config → Text
scheme c = if text_eq c.tls.mode tls_off then codes "http" else codes "https"

unfoldable pub managed_names : Config → List Text
managed_names c =
    if c.tls.include_apex
    then c.domain ∷ (codes "*." ++ c.domain) ∷ []
    else (codes "*." ++ c.domain) ∷ []
