-- ===== src/Namegen/Examples.antt =====
-- The theorems on names at concrete inputs, and tests of the label grammar.
use zerock.Prelude.{◌≡◌, refl, true, false, codes}
use zerock.Namegen.{Picks, new_name, valid_subdomain}

abbrev drawn : Picks
drawn = record { h0 = 4; h1 = 15; h2 = 2; adjective = 41; noun = 29 }

drawn_name : new_name drawn ≡ codes "swift-otter-4f2"
unfolding new_name
drawn_name = refl

api_x_is_valid : valid_subdomain (codes "api-x") ≡ true
unfolding valid_subdomain
api_x_is_valid = refl

double_dash_is_not : valid_subdomain (codes "a--b") ≡ false
unfolding valid_subdomain
double_dash_is_not = refl
