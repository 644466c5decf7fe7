-- ===== src/Tray/Spec/Arguments.antt =====
-- `SavedTunnel.Args` of internal/client/config.go as items of a command line, and how the parts of
-- internal/tray/spec.go read them.
use zerock.Prelude.{
  sym, append-nil, ℕ_discrete, all, ℕ, ◌≤◌, ◌≡◌, refl, ◌∙◌, ap, ◌⊎◌, inl, inr, Bool, true, false,
  ◌&&◌, ◌||◌, not, some, List, [], ◌∷◌, ◌++◌, Text, codes, text_eq, text_dec, if◌then◌else◌,
  is_empty, has_byte, arith, to_lower, trim_space, pos,
}
use zerock.Prelude.Int.{eqb_ℤ}
use zerock.Prelude.Net.{is_digit, decimal}
use zerock.Prelude.Net.Laws.{cut_last-none, atoi-decimal, decimal-digits, has_byte-digits}
use zerock.Prelude.Strings.{trim, lower_byte}
use zerock.Prelude.Words.{has_no_space}
use zerock.Server.Tunnel.{type_http, type_tcp}
use zerock.Client.Profiles.{SavedTunnel, flag_if, arg_words}
use zerock.Cliutil.{is_operand}
use zerock.Cliutil.Items.{Item, operand, valued, flatten, operands_of}
use zerock.Tray.Spec.{
  Flags, is_refused, spec_of, take_sub, spec_with, name_of, take_kind, after_colon, read_port,
  is_local,
}

-- A flag with its value, where it is given.
abbrev pub valued_if : Bool → Text → Text → List Item
valued_if b name value = if b then valued true name value ∷ [] else []

abbrev pub has_host : SavedTunnel → Bool
has_host t = not (is_empty t.host) && not (text_eq t.host (codes "127.0.0.1"))

abbrev pub has_remote_port : SavedTunnel → Bool
has_remote_port t = not (eqb_ℤ t.remote_port (pos 0))

abbrev pub options_of : SavedTunnel → List Item
options_of t =
    valued_if (not (is_empty t.subdomain)) (codes "sub") t.subdomain
    ++ (valued_if (has_host t) (codes "host") t.host
        ++ (valued_if (has_remote_port t) (codes "remote-port") (decimal t.remote_port)
            ++ (valued_if (not (is_empty t.basic_auth)) (codes "auth") t.basic_auth ++ [])))

abbrev pub items_of : SavedTunnel → List Item
items_of t = operand t.type ∷ operand (decimal t.port) ∷ options_of t

-- A tunnel as the form or the command line saves it.
pub record IsSaved (t : SavedTunnel) : Type 0 where
  pub type : (t.type ≡ type_http) ⊎ (t.type ≡ type_tcp)
  pub port : (n : ℕ) × (t.port ≡ pos n) × (1 ≤ n) × (n ≤ 65535)
  pub host : (trim_space t.host ≡ t.host) × (is_local t.host ≡ false)
  pub subdomain : to_lower (trim_space t.subdomain) ≡ t.subdomain
  pub auth :
      (is_empty t.basic_auth || has_byte b':' t.basic_auth && text_eq t.type type_http) ≡ true
  pub remote_port : (eqb_ℤ t.remote_port (pos 0) || text_eq t.type type_tcp) ≡ true
  pub profile : t.profile ≡ []
  pub autostart : t.autostart ≡ false
  pub host_word : has_no_space t.host ≡ true
  pub subdomain_word : has_no_space t.subdomain ≡ true
  pub auth_word : has_no_space t.basic_auth ≡ true

pub flatten-valued_if :
    (b : Bool) (name value : Text) (is : List Item)
    → flatten (valued_if b name value ++ is) ≡ flag_if b (b'-' ∷ b'-' ∷ name) value ++ flatten is
flatten-valued_if true name value is = refl
flatten-valued_if false name value is = refl

pub arg_words-items_of : (t : SavedTunnel) → flatten (items_of t) ≡ arg_words t
unfolding arg_words
arg_words-items_of t =
    let sub = not (is_empty t.subdomain) in
    let auth = not (is_empty t.basic_auth) in
    rw
      (
        flatten-valued_if sub (codes "sub") t.subdomain (
            valued_if (has_host t) (codes "host") t.host
            ++ (valued_if (has_remote_port t) (codes "remote-port") (decimal t.remote_port)
                ++ (valued_if auth (codes "auth") t.basic_auth ++ []))),
        flatten-valued_if (has_host t) (codes "host") t.host (
            valued_if (has_remote_port t) (codes "remote-port") (decimal t.remote_port)
            ++ (valued_if auth (codes "auth") t.basic_auth ++ [])),
        flatten-valued_if (has_remote_port t) (codes "remote-port") (decimal t.remote_port)
            (valued_if auth (codes "auth") t.basic_auth ++ []),
        flatten-valued_if auth (codes "auth") t.basic_auth [],
        append-nil (flag_if auth (codes "--auth") t.basic_auth),
      )
      refl

pub operands-valued_if :
    (b : Bool) (name value : Text) (is : List Item)
    → operands_of (valued_if b name value ++ is) ≡ operands_of is
operands-valued_if true name value is = refl
operands-valued_if false name value is = refl

pub operands-items_of : (t : SavedTunnel) → operands_of (items_of t) ≡ t.type ∷ decimal t.port ∷ []
operands-items_of t =
    let auth = valued_if (not (is_empty t.basic_auth)) (codes "auth") t.basic_auth ++ [] in
    let remote =
      valued_if (has_remote_port t) (codes "remote-port") (decimal t.remote_port) ++ auth in
    let host = valued_if (has_host t) (codes "host") t.host ++ remote in
    ap (λ l. t.type ∷ decimal t.port ∷ l)
      (operands-valued_if (not (is_empty t.subdomain)) (codes "sub") t.subdomain host
        ∙ operands-valued_if (has_host t) (codes "host") t.host remote
        ∙ operands-valued_if (has_remote_port t) (codes "remote-port") (decimal t.remote_port) auth
        ∙ operands-valued_if (not (is_empty t.basic_auth)) (codes "auth") t.basic_auth [])

is_operand-digits : (s : Text) → all is_digit s ≡ true → is_operand s ≡ true
unfolding is_operand
is_operand-digits [] h = refl
is_operand-digits (c ∷ s) h = ground arith

pub is_operand-type : (w : Text) → (w ≡ type_http) ⊎ (w ≡ type_tcp) → is_operand w ≡ true
is_operand-type w (inl e) = rw e (unfold is_operand in refl)
is_operand-type w (inr e) = rw e (unfold is_operand in refl)

pub take_kind-type :
    (w : Text) (ws : List Text) → (w ≡ type_http) ⊎ (w ≡ type_tcp) → take_kind (w ∷ ws) ≡ (w, ws)
unfolding take_kind to_lower lower_byte text_dec ℕ_discrete
take_kind-type w ws (inl e) = rw e refl
take_kind-type w ws (inr e) = rw e refl

pub read_port-decimal : (n : ℕ) → 1 ≤ n → n ≤ 65535 → read_port (decimal (pos n)) ≡ some (pos n)
unfolding read_port after_colon
read_port-decimal n a b =
    rw
      (
        read_port,
        after_colon,
        cut_last-none b':' (decimal (pos n))
            (has_byte-digits b':' (decimal (pos n)) refl (decimal-digits n)),
        atoi-decimal n,
      )
      (ground arith)

pub is_operand-port : (t : SavedTunnel) → IsSaved t → is_operand (decimal t.port) ≡ true
is_operand-port t s =
    let (n, e, a, b) = s.port in rw e (is_operand-digits (decimal (pos n)) (decimal-digits n))

-- The type words exclude each other.
pub type_eq :
    (w : Text) → (w ≡ type_http) ⊎ (w ≡ type_tcp) → text_eq w type_tcp ≡ not (text_eq w type_http)
unfolding text_dec ℕ_discrete
type_eq w (inl e) = rw e refl
type_eq w (inr e) = rw e refl

pub read_port-saved : (t : SavedTunnel) → IsSaved t → read_port (decimal t.port) ≡ some t.port
read_port-saved t s = let (n, e, a, b) = s.port in rw e (read_port-decimal n a b)

abbrev pub flags_of : SavedTunnel → Flags
flags_of t = record {
  sub = t.subdomain;
  host = t.host;
  auth = t.basic_auth;
  remote_port = t.remote_port;
  name = [];
  autostart = false;
}

not_refused : (t : SavedTunnel) → IsSaved t → is_refused t.type (flags_of t) ≡ false
not_refused t s = ground (arith, type_eq t.type s.type, s.auth, s.remote_port)

spec_of-flags_of :
    (t : SavedTunnel) → IsSaved t → spec_of t.type t.port t.subdomain (flags_of t) ≡ t
unfolding spec_of
spec_of-flags_of t s =
    let is_host : (if is_local (trim_space t.host) then [] else trim_space t.host) ≡ t.host =
      rw s.host.0 (rw s.host.1 refl) in
    λ i. record {
      type = t.type;
      port = t.port;
      host = is_host i;
      subdomain = s.subdomain i;
      remote_port = t.remote_port;
      basic_auth = t.basic_auth;
      profile = sym s.profile i;
      autostart = sym s.autostart i;
    }

pub spec_with-saved :
    (t : SavedTunnel)
    → IsSaved t
    → spec_with t.type (flags_of t) (take_sub t.subdomain (decimal t.port ∷ []))
      ≡ some ((if is_empty t.subdomain then t.type ++ b'-' ∷ decimal t.port else t.subdomain), t)
unfolding take_sub name_of trim_space trim spec_with
spec_with-saved t s =
    rw (spec_with, read_port-saved t s, not_refused t s, spec_of-flags_of t s) (ground arith)
