-- ===== src/Client/Profiles/Resolved.antt =====
-- internal/client/config.go: what a resolved profile is good for.
use zerock.Prelude.{
  ◌≡◌, refl, ap, subst, ◌∙◌, inl, inr, Option, true, false, ◌||◌, none, some, [], ◌∷◌, arith, Text,
  text_dec, if◌then◌else◌, is_empty, Bool-cases,
}
use zerock.Prelude.Assoc
use zerock.Client.Profiles.{
  Profile, ConfigFile, Env, Resolution, ok, err, split_server, or_zero_profile, chosen_name,
  with_server, with_env, resolve, ◌>>=◌,
}

-- Where the parts of a resolved profile come from.
pub record IsResolved (c : ConfigFile) (env : Env) (name : Text) (found : Text) (prof : Profile)
    : Type 0 where
  pub has_host : is_empty prof.host ≡ false
  pub has_token : is_empty prof.token ≡ false
  pub named : is_empty found ≡ false
  -- A name that was asked for is the one that is answered.
  pub asked : is_empty name ≡ false → found ≡ name
  pub server_wins :
      is_empty env.server ≡ false → split_server env.server ≡ ok (prof.host, prof.control_port)
  pub token_wins : is_empty env.token ≡ false → prof.token ≡ env.token
  -- Without the environment it is a profile of the file.
  pub on_file :
      is_empty env.server ≡ true
      → is_empty env.token ≡ true
      → (p : Profile) × (Assoc.find text_dec c.profiles (chosen_name c env name) ≡ some p)
        × (prof.host ≡ p.host)
        × (prof.token ≡ p.token)
        × (prof.control_port ≡ p.control_port)

>>=-eq-ok :
    {A B : Type 0} (m : Resolution A) (f : A → Resolution B) (b : B)
    → (m >>= f) ≡ ok b
    → (a : A) × (m ≡ ok a) × (f a ≡ ok b)
>>=-eq-ok (ok a) f b h = (a, refl, h)
>>=-eq-ok (err e) f b h = cc

with_server_lem :
    (server : Text) (p served : Profile)
    → with_server server p ≡ ok served
    → (is_empty server ≡ false → split_server server ≡ ok (served.host, served.control_port))
      × (is_empty server ≡ true → served ≡ p)
      × (served.token ≡ p.token)
unfolding with_server
with_server_lem [] p served h = ground arith
with_server_lem (x ∷ server) p served h =
    let ((host, port), e, step) = >>=-eq-ok (split_server (x ∷ server)) _ served h in
    ground (arith, e)

chosen_name_asked :
    (c : ConfigFile) (env : Env) (name : Text)
    → is_empty name ≡ false
    → chosen_name c env name ≡ name
unfolding chosen_name
chosen_name_asked c env [] h = cc
chosen_name_asked c env (x ∷ name) h = refl

found_profile :
    (o : Option Profile)
    → is_empty (or_zero_profile o).host ≡ false
    → (p : Profile) × (o ≡ some p) × (or_zero_profile o ≡ p)
found_profile none h = cc
found_profile (some p) h = (p, refl, refl)

-- What `resolve` answers, given the profile that it looked up.
from_served :
    (c : ConfigFile) (env : Env) (name : Text) (served : Profile)
    → with_server env.server
        (or_zero_profile (Assoc.find text_dec c.profiles (chosen_name c env name)))
      ≡ ok served
    → (is_empty (with_env env served).host || is_empty (with_env env served).token) ≡ false
    → IsResolved c env name
        (if is_empty (chosen_name c env name)
          then (with_env env served).host
          else chosen_name c env name)
        (with_env env served)
unfolding with_env
from_served c env name served e usable =
    let (wins, same, token) =
      with_server_lem env.server
        (or_zero_profile (Assoc.find text_dec c.profiles (chosen_name c env name))) served e in
    record {
      has_host = ground arith;
      has_token = ground arith;
      named = ground arith;
      asked = λ h. ground (arith, chosen_name_asked c env name h);
      server_wins = wins;
      token_wins = λ h. ground arith;
      on_file = λ no_server no_token.
          (let whole = same no_server in
            let (p, there, is_p) =
              found_profile (Assoc.find text_dec c.profiles (chosen_name c env name))
                (ground (arith, whole)) in
            (
              p,
              there,
              ap (λ (x : Profile). x.host) (whole ∙ is_p),
              rw no_token (ap (λ (x : Profile). x.token) (whole ∙ is_p)),
              ap (λ (x : Profile). x.control_port) (whole ∙ is_p),
            ));
    }

-- A profile that is resolved has a host and a token and is named; ZEROCK_SERVER and ZEROCK_TOKEN
-- win over the file, and without them its host, port and token are those of the profile of the
-- name that was chosen: the one asked for, or else the environment's, the default or the only one.
pub resolve_lem :
    (c : ConfigFile) (env : Env) (name found : Text) (prof : Profile)
    → resolve c env name ≡ ok (found, prof)
    → IsResolved c env name found prof
unfolding resolve
resolve_lem c env name found prof h =
    let (served, e, step) =
      >>=-eq-ok
        (with_server env.server
          (or_zero_profile (Assoc.find text_dec c.profiles (chosen_name c env name))))
        _ (found, prof) h in
    elim (Bool-cases
      (is_empty (with_env env served).host || is_empty (with_env env served).token)) [
        | inl lacks ↦ absurd (ground arith)
        | inr usable ↦
            let same : ◌≡◌ {A = Text × Profile}
                (
                  if is_empty (chosen_name c env name)
                      then (with_env env served).host
                      else chosen_name c env name,
                  with_env env served,
                )
                (found, prof) =
              ground arith in
            subst (λ (x : Text × Profile). IsResolved c env name (x.0) (x.1)) same
              (from_served c env name served e usable)
      ]
