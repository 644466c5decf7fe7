-- ===== src/Server/Http/Headers.antt =====
-- internal/server/http.go: what a request must bring to be forwarded, and what the backend is told.
use zerock.Prelude.{
  ℕ, ◌≡◌, refl, subst, ◌∙◌, inl, inr, Bool, true, false, ◌&&◌, not, Option, none, some, List, [],
  ◌∷◌, arith, Text, codes, text_eq, text_dec, ℕ_discrete, member, is_empty, if◌then◌else◌,
  Bool-cases,
}
use zerock.Prelude.Net.{cut_first}
use zerock.Prelude.Assoc
use zerock.Server.Config.{Config}
use zerock.Server.Tunnel.{Tunnel, Cell, record_traffic}
use zerock.Server.Registry.{Registry}
use zerock.Server.Http.{
  Request, Header, Outgoing, Answer, Exchange, Wakeup, Route, proxied, edge_error, to_api,
  unknown_host, no_tunnel, to_tunnel, client_ip, cfg_scheme, cut_or, set_if, rewrite, route,
  check_basic_auth, wait_ready, proxy_http, front_end, dispatch, emit,
}

abbrev forwarded_for : Text
forwarded_for = codes "X-Forwarded-For"

abbrev authorization : Text
authorization = codes "Authorization"

-- The headers that the edge writes.
abbrev pub edge_headers : List Text
edge_headers =
    codes "X-Forwarded-Host"
    ∷ codes "X-Forwarded-Proto"
    ∷ codes "X-Zerock-Tunnel"
    ∷ forwarded_for
    ∷ codes "X-Real-Ip"
    ∷ authorization
    ∷ []

-- What the backend is told of a request.
pub record Forwards (cfg : Config) (tun : Tunnel) (r : Request) (out : Header) (o : Outgoing)
    : Type 0 where
  pub local : o.url_host ≡ tun.local_addr
  pub host : o.host ≡ r.host
  pub origin :
      is_empty (client_ip cfg r) ≡ false
      → (Assoc.find text_dec o.headers forwarded_for ≡ some (client_ip cfg r))
        × (Assoc.find text_dec o.headers (codes "X-Real-Ip") ≡ some (client_ip cfg r))
  pub forwarded_host : Assoc.find text_dec o.headers (codes "X-Forwarded-Host") ≡ some r.host
  pub forwarded_proto :
      Assoc.find text_dec o.headers (codes "X-Forwarded-Proto") ≡ some (cfg_scheme cfg)
  pub tunnel_id : Assoc.find text_dec o.headers (codes "X-Zerock-Tunnel") ≡ some tun.id
  pub secret :
      Assoc.find text_dec o.headers authorization
      ≡ (if is_empty tun.basic_auth then Assoc.find text_dec out authorization else none)
  pub others :
      (k : Text)
      → member k edge_headers ≡ false
      → Assoc.find text_dec o.headers k ≡ Assoc.find text_dec out k

find-set_if :
    (b : Bool) (k v : Text) (h : Header) (j : Text)
    → Assoc.find text_dec (set_if b k v h) j
      ≡ (if b && text_eq k j then some v else Assoc.find text_dec h j)
find-set_if true k v h j = Assoc.find-put text_dec h k j v ∙ ground arith
find-set_if false k v h j = refl

find-dropped :
    (b : Bool) (k : Text) (h : Header) (j : Text)
    → Assoc.find text_dec (if b then h else Assoc.erase text_dec h k) j
      ≡ (if not b && text_eq k j then none else Assoc.find text_dec h j)
find-dropped true k h j = refl
find-dropped false k h j = Assoc.find-erase text_dec h k j ∙ ground arith

find-put_eq :
    (h : Header) (k v j : Text)
    → Assoc.find text_dec (Assoc.put text_dec h k v) j
      ≡ (if text_eq k j then some v else Assoc.find text_dec h j)
find-put_eq h k v j = Assoc.find-put text_dec h k j v ∙ ground arith

rewrite-Forwards :
    (cfg : Config) (tun : Tunnel) (r : Request) (out : Header)
    → Forwards cfg tun r out (rewrite cfg tun r out)
unfolding rewrite text_dec ℕ_discrete
rewrite-Forwards cfg tun r out = record {
  local = refl;
  host = refl;
  origin = λ e. (
    simp (find-dropped, find-set_if, find-put_eq) (ground arith),
    simp (find-dropped, find-set_if, find-put_eq) (ground arith),
  );
  forwarded_host = simp (find-dropped, find-set_if, find-put_eq) (ground arith);
  forwarded_proto = simp (find-dropped, find-set_if, find-put_eq) (ground arith);
  tunnel_id = simp (find-dropped, find-set_if, find-put_eq) (ground arith);
  secret = simp (find-dropped, find-set_if, find-put_eq) (ground arith);
  others = λ k ne. simp (find-dropped, find-set_if, find-put_eq) (ground arith);
}

-- The credentials that a protected tunnel wants: the two sides of the first colon.
abbrev pub wanted : Text → Text × Text
wanted basic_auth = cut_or basic_auth (cut_first b':' basic_auth)

check_basic_auth_lem :
    (basic_auth : Text) (credentials : Option (Text × Text))
    → check_basic_auth basic_auth credentials ≡ true
    → is_empty basic_auth ≡ false
    → credentials ≡ some (wanted basic_auth)
unfolding check_basic_auth
check_basic_auth_lem basic_auth none h ne = ground arith
check_basic_auth_lem basic_auth (some (u, p)) h ne = ground arith

dispatch-Forwards :
    (cfg : Config) (cells : ℕ → Cell) (wakeup : Wakeup) (r : Request) (out : Header) (x : Exchange)
    (o : Outgoing) (a : Answer) (way : Route)
    → dispatch cfg cells wakeup r out x way ≡ proxied o a
    → (tun : Tunnel) × (way ≡ to_tunnel tun)
      × (wait_ready (cells tun.ref).ready wakeup ≡ true)
      × (is_empty tun.basic_auth ≡ false → r.credentials ≡ some (wanted tun.basic_auth))
      × Forwards cfg tun r out o
unfolding dispatch proxy_http
dispatch-Forwards cfg cells wakeup r out x o a to_api h = cc
dispatch-Forwards cfg cells wakeup r out x o a unknown_host h = cc
dispatch-Forwards cfg cells wakeup r out x o a (no_tunnel sub) h = cc
dispatch-Forwards cfg cells wakeup r out x o a (to_tunnel t) h =
    elim (Bool-cases (wait_ready (cells t.ref).ready wakeup)) [
      | inr late ↦ absurd (let bad : edge_error 503 ≡ proxied o a = rw late at h in cc)
      | inl live ↦ elim (Bool-cases (check_basic_auth t.basic_auth r.credentials)) [
        | inr wrong ↦ absurd (let bad : edge_error 401 ≡ proxied o a = rw (live, wrong) at h in cc)
        | inl right ↦
            let step : proxied (rewrite cfg t r out)
                  (emit x.event_written (record_traffic x.body_read x.written (cells t.ref)))
                ≡ proxied o a =
              rw (live, right) at h in
            let same : rewrite cfg t r out ≡ o = cc in
            (
              t,
              refl,
              live,
              check_basic_auth_lem t.basic_auth r.credentials right,
              subst (Forwards cfg t r out) same (rewrite-Forwards cfg t r out),
            )
      ]
    ]

-- A request is forwarded only to the tunnel that claims its host, when that tunnel is or becomes
-- ready, and when it brings the tunnel's credentials, if it has any. The backend is told the
-- client's address as the edge saw it, in both of its headers, the host that was asked for, the
-- scheme and the tunnel, whatever the client sent under these names, and never the credentials that
-- the edge checked; no other header is changed.
pub front_end-Forwards :
    (cfg : Config) (reg : Registry) (cells : ℕ → Cell) (wakeup : Wakeup) (r : Request)
    (out : Header) (x : Exchange) (o : Outgoing) (a : Answer)
    → front_end cfg reg cells wakeup r out x ≡ proxied o a
    → (tun : Tunnel) × (route cfg reg r ≡ to_tunnel tun)
      × (wait_ready (cells tun.ref).ready wakeup ≡ true)
      × (is_empty tun.basic_auth ≡ false → r.credentials ≡ some (wanted tun.basic_auth))
      × Forwards cfg tun r out o
unfolding front_end
front_end-Forwards cfg reg cells wakeup r out x o a h =
    dispatch-Forwards cfg cells wakeup r out x o a (route cfg reg r) h
