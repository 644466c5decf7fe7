-- ===== src/Tray/Spec/Lines.antt =====
-- internal/client/config.go and internal/tray/spec.go: the line that `Args` writes, and the words that
-- are found in it.
use zerock.Prelude.{
  ◌≡◌, ◌⊎◌, refl, inl, inr, Bool, true, false, not, Option, some, List, ◌∷◌, ◌++◌, arith, Text,
  codes, ℤ, is_empty, All, if◌then◌else◌,
}
use zerock.Prelude.Net.{decimal}
use zerock.Prelude.Net.Laws.{decimal-IsWord}
use zerock.Prelude.Words.{fields, IsWord, has_no_space, fields-join_words}
use zerock.Server.Tunnel.{type_http, type_tcp}
use zerock.Client.Profiles.{SavedTunnel, flag_if, arg_words, args}
use zerock.Tray.Spec.{parse_spec, parse_spec_args}
use zerock.Tray.Spec.Arguments.{IsSaved, has_host, has_remote_port}
use zerock.Tray.Spec.Reading.{parse_spec_args-arg_words}

type-IsWord : (w : Text) → (w ≡ type_http) ⊎ (w ≡ type_tcp) → IsWord w
type-IsWord w (inl e) = (rw e refl, rw e refl)
type-IsWord w (inr e) = (rw e refl, rw e refl)

flag_words :
    (b : Bool) (flag value : Text) (ws : List Text)
    → IsWord flag
    → (b ≡ true → IsWord value)
    → All IsWord ws
    → All IsWord (flag_if b flag value ++ ws)
flag_words true flag value ws f v h = (f, (v refl, h))
flag_words false flag value ws f v h = h

last_words :
    (b : Bool) (flag value : Text)
    → IsWord flag
    → (b ≡ true → IsWord value)
    → All IsWord (flag_if b flag value)
last_words true flag value f v = (f, (v refl, tt))
last_words false flag value f v = tt

given-IsWord : (s : Text) → has_no_space s ≡ true → not (is_empty s) ≡ true → IsWord s
given-IsWord s h g = ground arith

-- The parts that `Args` joins are words.
arg_words-AreWords : (t : SavedTunnel) → IsSaved t → All IsWord (arg_words t)
unfolding arg_words
arg_words-AreWords t s =
    let auth = flag_if (not (is_empty t.basic_auth)) (codes "--auth") t.basic_auth in
    let remote =
      flag_if (has_remote_port t) (codes "--remote-port") (decimal t.remote_port) ++ auth in
    let host = flag_if (has_host t) (codes "--host") t.host ++ remote in
    (
      type-IsWord t.type s.type,
      (
        decimal-IsWord t.port,
        flag_words (not (is_empty t.subdomain)) (codes "--sub") t.subdomain host (refl, refl)
            (given-IsWord t.subdomain s.subdomain_word)
            (flag_words (has_host t) (codes "--host") t.host remote (refl, refl)
              (λ b. given-IsWord t.host s.host_word (ground (arith, b)))
              (flag_words (has_remote_port t) (codes "--remote-port") (decimal t.remote_port) auth
                (refl, refl) (λ b. decimal-IsWord t.remote_port)
                (last_words (not (is_empty t.basic_auth)) (codes "--auth") t.basic_auth (refl, refl)
                  (given-IsWord t.basic_auth s.auth_word)))),
      ),
    )

-- The words of the line that `Args` writes are those that it joins.
pub fields-args : (t : SavedTunnel) → IsSaved t → fields (args t) ≡ arg_words t
unfolding args
fields-args t s = fields-join_words (arg_words t) (arg_words-AreWords t s)

parse_spec-fields :
    (read_int : Text → Option ℤ) (read_bool : Text → Option Bool) (line : Text)
    → parse_spec read_int read_bool line ≡ parse_spec_args read_int read_bool (fields line)
unfolding parse_spec
parse_spec-fields read_int read_bool line = refl

-- For every tunnel of a known type with a port from 1 to 65535, a trimmed host that is neither
-- 127.0.0.1 nor localhost, a trimmed subdomain in lower case, credentials with a colon for HTTP only
-- and a public port for TCP only, no profile and no autostart, and no white space in the host, the
-- subdomain and the credentials, if package flag reads the public port as it is written:
-- `parse_spec` reads the line that `args` writes as exactly this tunnel, under its subdomain as a
-- name, or else under its type and port.
pub parse_spec-args :
    (read_int : Text → Option ℤ) (read_bool : Text → Option Bool) (t : SavedTunnel)
    → IsSaved t
    → read_int (decimal t.remote_port) ≡ some t.remote_port
    → parse_spec read_int read_bool (args t)
      ≡ some ((if is_empty t.subdomain then t.type ++ b'-' ∷ decimal t.port else t.subdomain), t)
parse_spec-args read_int read_bool t s h =
    rw (parse_spec-fields read_int read_bool (args t), fields-args t s)
      (parse_spec_args-arg_words read_int read_bool t s h)
