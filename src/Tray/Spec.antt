-- ===== src/Tray/Spec.antt =====
-- internal/tray/spec.go: the line that asks for a tunnel, and the name that it is saved under. What
-- package flag reads as an integer or a Boolean are parameters; an error is `none`.
pub mod Arguments
pub mod Reading
pub mod Lines
pub mod Unique
pub mod Fixtures
mod Examples
use zerock.Prelude.{
  or_kept, ℕ, zero, suc, ◌+◌, Bool, true, false, ◌&&◌, ◌||◌, not, Option, none, some, List, [], ◌∷◌,
  ◌++◌, Text, codes, text_eq, text_dec, if◌then◌else◌, is_empty, has_byte, length, to_lower,
  trim_space, ℤ, pos,
}
use zerock.Prelude.Int.{ltb_ℤ, eqb_ℤ}
use zerock.Prelude.Strings.{is_space, cons_head}
use zerock.Prelude.Words.{fields}
use zerock.Prelude.Net.{atoi, decimal, cut_last}
use zerock.Prelude.Assoc
use zerock.Prelude.Assoc.{Assoc}
use zerock.Server.Tunnel.{type_http, type_tcp}
use zerock.Client.Profiles.{SavedTunnel}
use zerock.Cliutil.{Kind, text_flag, int_flag, bool_flag, FlagSet, Parsed, parse_flags}

-- The variables of the flags.
pub record Flags : Type 0 where
  pub sub : Text
  pub host : Text
  pub auth : Text
  pub remote_port : ℤ
  pub name : Text
  pub autostart : Bool

abbrev pub no_flags : Flags
no_flags = record {
  sub = [];
  host = [];
  auth = [];
  remote_port = pos 0;
  name = [];
  autostart = false;
}

abbrev pub flag_set : FlagSet
flag_set =
    (codes "sub", text_flag)
    ∷ (codes "host", text_flag)
    ∷ (codes "auth", text_flag)
    ∷ (codes "remote-port", int_flag)
    ∷ (codes "name", text_flag)
    ∷ (codes "autostart", bool_flag)
    ∷ []

-- A leading type word is optional.
unfoldable pub take_kind : List Text → Text × List Text
unfolding to_lower text_dec
take_kind [] = (type_http, [])
take_kind (w ∷ ws) =
    if text_eq (to_lower w) type_http || text_eq (to_lower w) type_tcp
    then (to_lower w, ws)
    else (type_http, w ∷ ws)

-- The word of the port, and the subdomain.
unfoldable pub take_sub : Text → List Text → Option (Text × Text)
take_sub sub [] = none
take_sub sub (raw ∷ []) = some (raw, sub)
take_sub sub (raw ∷ word ∷ []) = if not (is_empty sub) then none else some (raw, word)
take_sub sub (raw ∷ word ∷ more ∷ ws) = none

-- ":3000" and "localhost:3000" are tolerated.
unfoldable pub after_colon : Text → Text
unfolding cut_last
after_colon raw = elim (cut_last b':' raw) [ none ↦ raw | some p ↦ p.1 ]

unfoldable pub read_port : Text → Option ℤ
unfolding atoi after_colon
read_port raw = elim (atoi (after_colon raw)) [
  | none ↦ none
  | some port ↦ if ltb_ℤ port (pos 1) || ltb_ℤ (pos 65535) port then none else some port
]

abbrev pub is_local : Text → Bool
is_local host = text_eq host (codes "127.0.0.1") || text_eq host (codes "localhost")

-- The options that do not go together.
abbrev pub is_refused : Text → Flags → Bool
is_refused kind f =
    not (is_empty f.auth) && not (has_byte b':' f.auth)
    || (not (is_empty f.auth) && text_eq kind type_tcp
        || not (eqb_ℤ f.remote_port (pos 0)) && text_eq kind type_http)

unfoldable pub spec_of : Text → ℤ → Text → Flags → SavedTunnel
unfolding to_lower trim_space
spec_of kind port sub f =
    let host = trim_space f.host in
    record {
      type = kind;
      port = port;
      host = if is_local host then [] else host;
      subdomain = to_lower (trim_space sub);
      remote_port = f.remote_port;
      basic_auth = f.auth;
      profile = [];
      autostart = f.autostart;
    }

unfoldable pub name_of : Text → SavedTunnel → Text
unfolding trim_space decimal
name_of flag spec =
    if not (is_empty (trim_space flag))
    then trim_space flag
    else if not (is_empty spec.subdomain)
    then spec.subdomain
    else spec.type ++ b'-' ∷ decimal spec.port

-- From the operands behind the type word.
unfoldable pub spec_with : Text → Flags → Option (Text × Text) → Option (Text × SavedTunnel)
unfolding read_port spec_of name_of
spec_with kind f none = none
spec_with kind f (some (raw, sub)) = elim (read_port raw) [
  | none ↦ none
  | some port ↦
      if is_refused kind f
      then none
      else some (name_of f.name (spec_of kind port sub f), spec_of kind port sub f)
]

module _ (read_int : Text → Option ℤ) (read_bool : Text → Option Bool) where
  -- `Value.Set` succeeds.
  abbrev pub accepts : Kind → Text → Bool
  accepts text_flag value = true
  accepts int_flag value = elim (read_int value) [ none ↦ false | some n ↦ true ]
  accepts bool_flag value = elim (read_bool value) [ none ↦ false | some b ↦ true ]

  -- `Value.Set` on the variable of a flag.
  unfoldable pub set_one : Text → Text → Flags → Flags
  unfolding text_dec
  set_one name value f =
      if text_eq name (codes "sub")
      then record f { sub = value }
      else if text_eq name (codes "host")
      then record f { host = value }
      else if text_eq name (codes "auth")
      then record f { auth = value }
      else if text_eq name (codes "remote-port")
      then record f { remote_port = or_kept f.remote_port (read_int value) }
      else if text_eq name (codes "name")
      then record f { name = value }
      else if text_eq name (codes "autostart")
      then record f { autostart = or_kept f.autostart (read_bool value) }
      else f

  unfoldable pub set_all : List (Text × Text) → Flags → Flags
  unfolding set_one
  set_all [] f = f
  set_all ((name, value) ∷ settings) f = set_all settings (set_one name value f)

  unfoldable pub spec_parsed : Option Parsed → Option (Text × SavedTunnel)
  unfolding set_all take_kind take_sub spec_with
  spec_parsed none = none
  spec_parsed (some p) =
      let f = set_all p.settings no_flags in
      let (kind, operands) = take_kind p.operands in spec_with kind f (take_sub f.sub operands)

  unfoldable pub parse_spec_args : List Text → Option (Text × SavedTunnel)
  unfolding spec_parsed parse_flags
  parse_spec_args [] = none
  parse_spec_args (w ∷ ws) = spec_parsed (parse_flags accepts flag_set (w ∷ ws))

  unfoldable pub parse_spec : Text → Option (Text × SavedTunnel)
  unfolding parse_spec_args fields
  parse_spec input = parse_spec_args (fields input)

abbrev pub candidate : Text → ℕ → Text
candidate name i = name ++ b'-' ∷ decimal (pos i)

-- The loop of `uniqueName`, on fuel; `none` is fuel that ran out.
unfoldable pub unique_loop : ℕ → ℕ → Text → Assoc Text SavedTunnel → Option Text
unique_loop zero i name taken = none
unique_loop (suc fuel) i name taken =
    let rest = unique_loop fuel (i + 1) name taken in
    elim (Assoc.find text_dec taken (candidate name i)) [
      | none ↦ some (candidate name i)
      | some t ↦ rest
    ]

unfoldable pub unique_name : Text → Assoc Text SavedTunnel → Option Text
unfolding unique_loop
unique_name name taken = elim (Assoc.find text_dec taken name) [
  | none ↦ some name
  | some t ↦ unique_loop (suc (length taken)) 2 name taken
]
