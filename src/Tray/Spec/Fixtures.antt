-- ===== src/Tray/Spec/Fixtures.antt =====
-- A tunnel for the tests of the lines that ask for one and of the commands that open one.
use zerock.Prelude.{
  refl, inr, Bool, true, false, Option, none, some, [], Text, codes, text_dec, ℕ_discrete, pos,
  arith, to_lower, trim_space, if◌then◌else◌, is_empty,
}
use zerock.Prelude.Strings.{trim, lower_byte}
use zerock.Client.Profiles.{SavedTunnel}
use zerock.Tray.Spec.Arguments.{IsSaved}

abbrev pub read_bool : Text → Option Bool
read_bool value = if is_empty value then none else some true

abbrev pub database : SavedTunnel
database = record {
  type = codes "tcp";
  port = pos 5432;
  host = codes "db.local";
  subdomain = codes "db";
  remote_port = pos 7000;
  basic_auth = [];
  profile = [];
  autostart = false;
}

pub database-IsSaved : IsSaved database
unfolding to_lower trim_space trim lower_byte text_dec ℕ_discrete
database-IsSaved = record {
  type = inr refl;
  port = (5432, refl, omega arith, omega arith);
  host = (refl, refl);
  subdomain = refl;
  auth = refl;
  remote_port = refl;
  profile = refl;
  autostart = refl;
  host_word = refl;
  subdomain_word = refl;
  auth_word = refl;
}
