-- ===== src/Clientcli/Variables.antt =====
-- internal/clientcli/tunnel.go: the words behind the verb that `SavedTunnel.Args` writes, and what
-- they make of the variables of the flags.
use zerock.Prelude.{
  ◌≡◌, inl, inr, refl, sym, ◌∙◌, ap, Bool-cases, Bool, true, false, ◌&&◌, not, Option, some, List,
  [], ◌∷◌, ◌++◌, Text, codes, text_eq, text_dec, ℕ_discrete, if◌then◌else◌, is_empty, arith, ℤ, pos,
}
use zerock.Prelude.Int.{eqb_ℤ_iff, eqb_ℤ}
use zerock.Prelude.Net.{decimal}
use zerock.Client.Profiles.{SavedTunnel}
use zerock.Cliutil.{FlagSet}
use zerock.Cliutil.Items.{Item, operand, valued, settings_of, IsFine, AreFine}
use zerock.Tray.Spec.{accepts, is_local}
use zerock.Tray.Spec.Arguments.{
  IsSaved, valued_if, has_host, has_remote_port, options_of, is_operand-port,
}
use zerock.Clientcli.{Vars, default_vars, TunnelRequest, assign, assign_all}

-- What the variables are after the options of a tunnel.
abbrev pub vars_of : SavedTunnel → Vars
vars_of t = record default_vars {
  sub = t.subdomain;
  host = if is_empty t.host then codes "127.0.0.1" else t.host;
  auth = t.basic_auth;
  remote_port = t.remote_port;
}

-- The operand of the port, and the options.
abbrev pub rest_of : SavedTunnel → List Item
rest_of t = operand (decimal t.port) ∷ options_of t

abbrev pub request_of : SavedTunnel → TunnelRequest
request_of t = record {
  type = t.type;
  port = t.port;
  sub = t.subdomain;
  remote_port = t.remote_port;
  local_host = if is_empty t.host then codes "127.0.0.1" else t.host;
  basic_auth = t.basic_auth;
  reconnect = true;
  quiet = false;
  profile_name = [];
}

module _ (read_int : Text → Option ℤ) (read_bool : Text → Option Bool) where
  -- An option that is given is fine.
  given-AreFine :
      (fs : FlagSet) (b : Bool) (name value : Text) (is : List Item)
      → (b ≡ true → IsFine (accepts read_int read_bool) fs (valued true name value))
      → AreFine (accepts read_int read_bool) fs is
      → AreFine (accepts read_int read_bool) fs (valued_if b name value ++ is)
  given-AreFine fs true name value is h hs = (h refl, hs)
  given-AreFine fs false name value is h hs = hs

  pub rest_of-AreFine :
      (fs : FlagSet) (t : SavedTunnel)
      → IsSaved t
      → IsFine (accepts read_int read_bool) fs (valued true (codes "sub") t.subdomain)
      → IsFine (accepts read_int read_bool) fs (valued true (codes "host") t.host)
      → (has_remote_port t ≡ true
          → IsFine
              (accepts read_int read_bool)
              fs
              (valued true (codes "remote-port") (decimal t.remote_port)))
      → (not (is_empty t.basic_auth) ≡ true
          → IsFine (accepts read_int read_bool) fs (valued true (codes "auth") t.basic_auth))
      → AreFine (accepts read_int read_bool) fs (rest_of t)
  rest_of-AreFine fs t s sub host remote auth =
      let auths = valued_if (not (is_empty t.basic_auth)) (codes "auth") t.basic_auth ++ [] in
      let remotes =
        valued_if (has_remote_port t) (codes "remote-port") (decimal t.remote_port) ++ auths in
      let hosts = valued_if (has_host t) (codes "host") t.host ++ remotes in
      (
        is_operand-port t s,
        given-AreFine fs (not (is_empty t.subdomain)) (codes "sub") t.subdomain hosts (λ e. sub)
            (given-AreFine fs (has_host t) (codes "host") t.host remotes (λ e. host)
              (given-AreFine fs (has_remote_port t) (codes "remote-port") (decimal t.remote_port)
                auths remote
                (given-AreFine fs (not (is_empty t.basic_auth)) (codes "auth") t.basic_auth [] auth
                  tt))),
      )

  assign_all-valued_if :
      (b : Bool) (name value : Text) (is : List Item) (v w : Vars)
      → (if b then assign read_int read_bool name value v else v) ≡ w
      → assign_all read_int read_bool (settings_of (valued_if b name value ++ is)) v
        ≡ assign_all read_int read_bool (settings_of is) w
  unfolding assign_all
  assign_all-valued_if true name value is v w h =
      ap (assign_all read_int read_bool (settings_of is)) h
  assign_all-valued_if false name value is v w h =
      ap (assign_all read_int read_bool (settings_of is)) h

  assign_sub :
      (s : Text)
      → (if not (is_empty s)
          then assign read_int read_bool (codes "sub") s default_vars
          else default_vars)
        ≡ record default_vars { sub = s }
  unfolding assign text_dec ℕ_discrete
  assign_sub [] = refl
  assign_sub (c ∷ r) = refl

  assign_host :
      (s h : Text)
      → is_local h ≡ false
      → let v = record default_vars { sub = s } in
        (if not (is_empty h) && not (text_eq h (codes "127.0.0.1"))
          then assign read_int read_bool (codes "host") h v
          else v)
        ≡ record v { host = if is_empty h then codes "127.0.0.1" else h }
  unfolding assign text_dec ℕ_discrete
  assign_host s [] l = refl
  assign_host s (c ∷ r) l =
      let other : text_eq (c ∷ r) (codes "127.0.0.1") ≡ false = ground (arith, l) in rw other refl

  assign_remote :
      (s h : Text) (n : ℤ)
      → (not (eqb_ℤ n (pos 0)) ≡ true → read_int (decimal n) ≡ some n)
      → let v = record default_vars { sub = s; host = h } in
        (if not (eqb_ℤ n (pos 0))
          then assign read_int read_bool (codes "remote-port") (decimal n) v
          else v)
        ≡ record v { remote_port = n }
  unfolding assign text_dec ℕ_discrete
  assign_remote s h n r = elim (Bool-cases (eqb_ℤ n (pos 0))) [
    | inl e ↦ rw e (
        ap (λ m. record default_vars { sub = s; host = h; remote_port = m })
          (sym ((eqb_ℤ_iff n (pos 0)).0 e)))
    | inr e ↦ rw (e, r (rw e refl)) refl
  ]

  assign_auth :
      (s h a : Text) (n : ℤ)
      → let v = record default_vars { sub = s; host = h; remote_port = n } in
        (if not (is_empty a) then assign read_int read_bool (codes "auth") a v else v)
        ≡ record v { auth = a }
  unfolding assign text_dec ℕ_discrete
  assign_auth s h [] n = refl
  assign_auth s h (c ∷ r) n = refl

  pub vars-rest_of :
      (t : SavedTunnel)
      → IsSaved t
      → read_int (decimal t.remote_port) ≡ some t.remote_port
      → assign_all read_int read_bool (settings_of (rest_of t)) default_vars ≡ vars_of t
  vars-rest_of t s r =
      let auths = valued_if (not (is_empty t.basic_auth)) (codes "auth") t.basic_auth ++ [] in
      let remotes =
        valued_if (has_remote_port t) (codes "remote-port") (decimal t.remote_port) ++ auths in
      let hosts = valued_if (has_host t) (codes "host") t.host ++ remotes in
      let host = if is_empty t.host then codes "127.0.0.1" else t.host in
      assign_all-valued_if (not (is_empty t.subdomain)) (codes "sub") t.subdomain hosts default_vars
        (record default_vars { sub = t.subdomain }) (assign_sub t.subdomain)
      ∙ assign_all-valued_if (has_host t) (codes "host") t.host remotes
          (record default_vars { sub = t.subdomain })
          (record default_vars { sub = t.subdomain; host = host })
          (assign_host t.subdomain t.host s.host.1)
      ∙ assign_all-valued_if (has_remote_port t) (codes "remote-port") (decimal t.remote_port) auths
          (record default_vars { sub = t.subdomain; host = host })
          (record default_vars { sub = t.subdomain; host = host; remote_port = t.remote_port })
          (assign_remote t.subdomain host t.remote_port (λ e. r))
      ∙ assign_all-valued_if (not (is_empty t.basic_auth)) (codes "auth") t.basic_auth []
          (record default_vars { sub = t.subdomain; host = host; remote_port = t.remote_port })
          (vars_of t) (assign_auth t.subdomain host t.basic_auth t.remote_port)
      ∙ unfold assign_all in refl
