-- ===== src/Server/Http/Routes.antt =====
-- internal/server/http.go: where the edge sends a request, by its host.
use zerock.Prelude.{
  ℕ, ◌≡◌, ◌≢◌, refl, sym, ap, ◌∙◌, inl, inr, Bool, true, false, some, List, [], ◌∷◌, ◌++◌, arith,
  Text, text_dec, pos, all, length, length-append, text_eq_ne, ◌⊎◌,
}
use zerock.Prelude.Strings.Laws.{trim-none}
use zerock.Prelude.Net.{decimal, is_digit}
use zerock.Prelude.Net.Laws.{split_host_port-plain, split_host_port-none, decimal-digits}
use zerock.Prelude.Assoc
use zerock.Hosts.{
  is_host_byte, address-lower, address-trim_space, host_is_address, address_bytes, all_lack,
  host-has_byte, host_plain, port_plain,
}
use zerock.Bolt.{Bolt}
use zerock.Namegen.{valid_subdomain}
use zerock.Namegen.Valid.{is_label_byte, valid_subdomain_sound}
use zerock.Store.Db.{Db}
use zerock.Server.Config.{Config, ok, normalize, is_reserved}
use zerock.Server.Config.Normal.{normalize_reserves_api}
use zerock.Server.Config.Hosts.{IsNormalDomain, subdomain_of-host}
use zerock.Server.Tunnel.{Tunnel}
use zerock.Server.Registry.{Registry, claimed}
use zerock.Server.Registry.Invariant.{IsValid}
use zerock.Server.Control.{Hello, go, Arrival, Grant, authorize}
use zerock.Server.Control.Names.{InRange}
use zerock.Server.Control.Granted.{authorize-IsLawful}
use zerock.Server.Http.{Request, to_tunnel, normalize_host, is_bracket, route_host, route}

normalize_host-plain : (s : Text) → all is_host_byte s ≡ true → normalize_host s ≡ s
unfolding normalize_host
normalize_host-plain s h =
    rw
      (
        address-trim_space s (host_is_address s h),
        address-lower s (host_is_address s h),
        split_host_port-none s (host-has_byte b':' s refl h),
      )
      (trim-none is_bracket s (all_lack is_host_byte is_bracket s (λ c. ground arith) h))

normalize_host-port :
    (s port : Text)
    → all is_host_byte s ≡ true
    → all is_digit port ≡ true
    → normalize_host (s ++ (b':' ∷ port)) ≡ s
unfolding normalize_host
normalize_host-port s port h d = rw (
  address-trim_space (s ++ (b':' ∷ port)) (address_bytes s port h d),
  address-lower (s ++ (b':' ∷ port)) (address_bytes s port h d),
  split_host_port-plain s port (host_plain s h) (port_plain port d),
)

-- A host in lower case is normal, and any port behind it is dropped.
pub normalize_host_lem :
    (s : Text)
    → all is_host_byte s ≡ true
    → (normalize_host s ≡ s) × ((port : ℕ) → normalize_host (s ++ (b':' ∷ decimal (pos port))) ≡ s)
normalize_host_lem s h = (
  normalize_host-plain s h,
  λ port. normalize_host-port s (decimal (pos port)) h (decimal-digits port),
)

-- The public host of a tunnel.
abbrev pub public_host : Config → Text → Text
public_host cfg label = label ++ (b'.' ∷ cfg.domain)

longer : (label domain : Text) → label ++ (b'.' ∷ domain) ≢ domain
longer label domain e =
    omega (arith, length-append label (b'.' ∷ domain), ap (λ (t : Text). length t) e)

public_host-bytes :
    (label domain : Text)
    → all is_label_byte label ≡ true
    → all is_host_byte domain ≡ true
    → all is_host_byte (label ++ (b'.' ∷ domain)) ≡ true
public_host-bytes [] domain l d = d
public_host-bytes (c ∷ label) domain l d = ground (arith, public_host-bytes label domain)

-- A name that is valid and not reserved is routed to whoever claims it, under a normalized
-- configuration: its public host is neither the API's nor the domain.
route_host-public :
    (c cfg : Config) (reg : Registry) (label : Text) (t : Tunnel)
    → normalize c ≡ ok cfg
    → IsNormalDomain cfg.domain
    → valid_subdomain label ≡ true
    → is_reserved cfg label ≡ false
    → Assoc.find text_dec reg.by_sub label ≡ some t
    → route_host cfg reg (public_host cfg label) ≡ to_tunnel t
unfolding route_host claimed
route_host-public c cfg reg label t normal domain valid free held =
    let found = subdomain_of-host cfg.domain label domain valid in
    let not_domain = text_eq_ne (public_host cfg label) cfg.domain (longer label cfg.domain) in
    let not_api = text_eq_ne (public_host cfg label) cfg.api_host λ e.
      let bad : true ≡ false =
        sym (normalize_reserves_api c cfg label normal (rw (← e) found) valid) ∙ free in
      cc in
    rw (not_api, not_domain) (rw (found, held))

named :
    (asked host : Text)
    → normalize_host host ≡ host
    → ((port : ℕ) → normalize_host (host ++ (b':' ∷ decimal (pos port))) ≡ host)
    → (asked ≡ host) ⊎ ((port : ℕ) × (asked ≡ host ++ (b':' ∷ decimal (pos port))))
    → normalize_host asked ≡ host
named asked host plain with_port (inl e) = rw e plain
named asked host plain with_port (inr (port, e)) = rw e (with_port port)

module _ (bolt : Bolt) (sha256 : Text → List ℕ) (c cfg : Config) (ready : ℕ → Bool) (reg : Registry)
    (db : Db bolt) (arrival : Arrival) (hello : Hello) where
  -- The tunnel that `authorize` grants is the one that the edge finds for its public host, with any
  -- port behind the host or none, if the configuration was normalized and its domain is in lower
  -- case and of the bytes of host names.
  pub route-authorize :
      (g : Grant) (r : Request)
      → normalize c ≡ ok cfg
      → IsNormalDomain cfg.domain
      → all is_host_byte cfg.domain ≡ true
      → IsValid reg
      → ((j : ℕ) → InRange (arrival.draws j))
      → authorize bolt sha256 cfg ready reg db arrival hello ≡ go g
      → (r.host ≡ public_host cfg g.tunnel.subdomain)
        ⊎ ((port : ℕ) × (r.host
              ≡ public_host cfg g.tunnel.subdomain ++ (b':' ∷ decimal (pos port))))
      → route cfg g.registry r ≡ to_tunnel g.tunnel
  unfolding route
  route-authorize g r normal domain bytes v ranges granted asked =
      let w = authorize-IsLawful bolt sha256 cfg ready reg db arrival hello g v ranges granted in
      let (_, _, label, _) = valid_subdomain_sound g.tunnel.subdomain w.grantable.valid in
      let (plain, with_port) =
        normalize_host_lem (public_host cfg g.tunnel.subdomain)
          (public_host-bytes g.tunnel.subdomain cfg.domain label bytes) in
      ap (route_host cfg g.registry)
        (named r.host (public_host cfg g.tunnel.subdomain) plain with_port asked)
      ∙ route_host-public c cfg g.registry g.tunnel.subdomain g.tunnel normal domain
          w.grantable.valid w.grantable.allowed w.held
