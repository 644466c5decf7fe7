-- ===== src/Tray/Spec/Reading.antt =====
-- internal/tray/spec.go with `SavedTunnel.Args` of internal/client/config.go: the arguments of a
-- tunnel ask for that tunnel.
use zerock.Prelude.{
  subst, Bool-cases, ℕ_discrete, ◌≡◌, refl, sym, ◌∙◌, ap, inl, inr, Bool, true, false, ◌&&◌, not,
  Option, some, List, [], ◌∷◌, ◌++◌, Text, codes, text_eq, text_dec, if◌then◌else◌, is_empty,
  has_byte, arith, ℤ, pos,
}
use zerock.Prelude.Int.{eqb_ℤ_iff, eqb_ℤ}
use zerock.Prelude.Net.{decimal}
use zerock.Prelude.Assoc
use zerock.Client.Profiles.{SavedTunnel, arg_words}
use zerock.Cliutil.{text_flag, int_flag, parse_flags}
use zerock.Cliutil.Items.{Item, valued, flatten, operands_of, settings_of, IsFine, AreFine}
use zerock.Cliutil.Parsing.{parse_flags-flatten}
use zerock.Tray.Spec.{
  Flags, no_flags, flag_set, take_kind, take_sub, is_local, spec_with, accepts, set_one, set_all,
  spec_parsed, parse_spec_args,
}
use zerock.Tray.Spec.Arguments.{
  flags_of, spec_with-saved, IsSaved, valued_if, has_host, has_remote_port, options_of, items_of,
  arg_words-items_of, operands-items_of, is_operand-port, is_operand-type, take_kind-type,
}

module _ (read_int : Text → Option ℤ) (read_bool : Text → Option Bool) where
  valued_if-AreFine :
      (b : Bool) (name value : Text) (is : List Item)
      → IsFine (accepts read_int read_bool) flag_set (valued true name value)
      → AreFine (accepts read_int read_bool) flag_set is
      → AreFine (accepts read_int read_bool) flag_set (valued_if b name value ++ is)
  valued_if-AreFine true name value is h hs = (h, hs)
  valued_if-AreFine false name value is h hs = hs

  items_of-AreFine :
      (t : SavedTunnel)
      → IsSaved t
      → read_int (decimal t.remote_port) ≡ some t.remote_port
      → AreFine (accepts read_int read_bool) flag_set (items_of t)
  unfolding has_byte Assoc.find text_dec ℕ_discrete
  items_of-AreFine t s h =
      let auth = valued_if (not (is_empty t.basic_auth)) (codes "auth") t.basic_auth ++ [] in
      let remote =
        valued_if (has_remote_port t) (codes "remote-port") (decimal t.remote_port) ++ auth in
      let host = valued_if (has_host t) (codes "host") t.host ++ remote in
      (
        is_operand-type t.type s.type,
        (
          is_operand-port t s,
          valued_if-AreFine (not (is_empty t.subdomain)) (codes "sub") t.subdomain host
              (text_flag, refl, ((refl, refl, refl), refl, refl))
              (valued_if-AreFine (has_host t) (codes "host") t.host remote
                (text_flag, refl, ((refl, refl, refl), refl, refl))
                (valued_if-AreFine (has_remote_port t) (codes "remote-port") (decimal t.remote_port)
                  auth (int_flag, refl, ((refl, refl, refl), refl, rw (accepts, h) refl))
                  (valued_if-AreFine (not (is_empty t.basic_auth)) (codes "auth") t.basic_auth []
                    (text_flag, refl, ((refl, refl, refl), refl, refl)) tt))),
        ),
      )

  set_all-valued_if :
      (b : Bool) (name value : Text) (is : List Item) (f g : Flags)
      → (if b then set_one read_int read_bool name value f else f) ≡ g
      → set_all read_int read_bool (settings_of (valued_if b name value ++ is)) f
        ≡ set_all read_int read_bool (settings_of is) g
  unfolding set_all
  set_all-valued_if true name value is f g h = ap (set_all read_int read_bool (settings_of is)) h
  set_all-valued_if false name value is f g h = ap (set_all read_int read_bool (settings_of is)) h

  set_sub :
      (v : Text)
      → (if not (is_empty v) then set_one read_int read_bool (codes "sub") v no_flags else no_flags)
        ≡ record no_flags { sub = v }
  unfolding set_one text_dec ℕ_discrete
  set_sub [] = refl
  set_sub (c ∷ s) = refl

  set_host :
      (s v : Text)
      → is_local v ≡ false
      → let f = record no_flags { sub = s } in
        (if not (is_empty v) && not (text_eq v (codes "127.0.0.1"))
          then set_one read_int read_bool (codes "host") v f
          else f)
        ≡ record f { host = v }
  unfolding set_one text_dec ℕ_discrete
  set_host s [] h = refl
  set_host s (c ∷ r) h =
      let other : text_eq (c ∷ r) (codes "127.0.0.1") ≡ false = ground (arith, h) in rw other refl

  set_remote :
      (s v : Text) (n : ℤ)
      → read_int (decimal n) ≡ some n
      → let f = record no_flags { sub = s; host = v } in
        (if not (eqb_ℤ n (pos 0))
          then set_one read_int read_bool (codes "remote-port") (decimal n) f
          else f)
        ≡ record f { remote_port = n }
  unfolding set_one text_dec ℕ_discrete
  set_remote s v n h = elim (Bool-cases (eqb_ℤ n (pos 0))) [
    | inl e ↦ rw e (
        ap (λ m. record no_flags { sub = s; host = v; remote_port = m })
          (sym ((eqb_ℤ_iff n (pos 0)).0 e)))
    | inr e ↦ rw (e, h) refl
  ]

  set_auth :
      (s v a : Text) (n : ℤ)
      → let f = record no_flags { sub = s; host = v; remote_port = n } in
        (if not (is_empty a) then set_one read_int read_bool (codes "auth") a f else f)
        ≡ record f { auth = a }
  unfolding set_one text_dec ℕ_discrete
  set_auth s v [] n = refl
  set_auth s v (c ∷ r) n = refl

  flags-items_of :
      (t : SavedTunnel)
      → IsSaved t
      → read_int (decimal t.remote_port) ≡ some t.remote_port
      → set_all read_int read_bool (settings_of (items_of t)) no_flags ≡ flags_of t
  flags-items_of t s h =
      let auth = valued_if (not (is_empty t.basic_auth)) (codes "auth") t.basic_auth ++ [] in
      let remote =
        valued_if (has_remote_port t) (codes "remote-port") (decimal t.remote_port) ++ auth in
      let host = valued_if (has_host t) (codes "host") t.host ++ remote in
      set_all-valued_if (not (is_empty t.subdomain)) (codes "sub") t.subdomain host no_flags
        (record no_flags { sub = t.subdomain }) (set_sub t.subdomain)
      ∙ set_all-valued_if (has_host t) (codes "host") t.host remote
          (record no_flags { sub = t.subdomain })
          (record no_flags { sub = t.subdomain; host = t.host })
          (set_host t.subdomain t.host s.host.1)
      ∙ set_all-valued_if (has_remote_port t) (codes "remote-port") (decimal t.remote_port) auth
          (record no_flags { sub = t.subdomain; host = t.host })
          (record no_flags { sub = t.subdomain; host = t.host; remote_port = t.remote_port })
          (set_remote t.subdomain t.host t.remote_port h)
      ∙ set_all-valued_if (not (is_empty t.basic_auth)) (codes "auth") t.basic_auth []
          (record no_flags { sub = t.subdomain; host = t.host; remote_port = t.remote_port })
          (flags_of t) (set_auth t.subdomain t.host t.basic_auth t.remote_port)
      ∙ unfold set_all in refl

  spec_parsed-some :
      (settings : List (Text × Text)) (operands : List Text)
      → spec_parsed read_int read_bool (some (record { settings = settings; operands = operands }))
        ≡ spec_with
            (take_kind operands).0
            (set_all read_int read_bool settings no_flags)
            (take_sub (set_all read_int read_bool settings no_flags).sub (take_kind operands).1)
  unfolding spec_parsed
  spec_parsed-some settings operands = refl

  parse_spec_args-cons :
      (w : Text) (ws : List Text)
      → parse_spec_args read_int read_bool (w ∷ ws)
        ≡ spec_parsed read_int read_bool
            (parse_flags (accepts read_int read_bool) flag_set (w ∷ ws))
  unfolding parse_spec_args
  parse_spec_args-cons w ws = refl

  -- For every tunnel of a known type with a port from 1 to 65535, a trimmed host that is neither
  -- 127.0.0.1 nor localhost, a trimmed subdomain in lower case, credentials with a colon for HTTP
  -- only and a public port for TCP only, no profile and no autostart, if package flag reads the
  -- public port as it is written: the words of `Args` ask `parse_spec_args` for exactly this tunnel,
  -- under its subdomain as a name, or else under its type and port.
  pub parse_spec_args-arg_words :
      (t : SavedTunnel)
      → IsSaved t
      → read_int (decimal t.remote_port) ≡ some t.remote_port
      → parse_spec_args read_int read_bool (arg_words t)
        ≡ some ((if is_empty t.subdomain then t.type ++ b'-' ∷ decimal t.port else t.subdomain), t)
  parse_spec_args-arg_words t s h =
      subst
        (λ l.
          parse_spec_args read_int read_bool l
          ≡ some
              ((if is_empty t.subdomain then t.type ++ b'-' ∷ decimal t.port else t.subdomain), t))
        (arg_words-items_of t)
        (rw
          (
            parse_spec_args-cons t.type (decimal t.port ∷ flatten (options_of t)),
            parse_flags-flatten (accepts read_int read_bool) flag_set (items_of t)
                (items_of-AreFine t s h),
            spec_parsed-some (settings_of (items_of t)) (operands_of (items_of t)),
            flags-items_of t s h,
            operands-items_of t,
            take_kind-type t.type (decimal t.port ∷ []) s.type,
          )
          (spec_with-saved t s))
