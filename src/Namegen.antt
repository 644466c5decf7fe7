-- ===== src/Namegen.antt =====
-- internal/namegen/namegen.go: random subdomains, and which labels may be asked for.
pub mod Valid
mod Examples
use Prim.Native.String.{String}
use zerock.Prelude.{
  ℕ, zero, suc, ◌≤◌, Bool, true, false, ◌&&◌, ◌||◌, not, Option, none, some, List, [], ◌∷◌, ◌++◌,
  Text, codes, leb, ◌==◌, if◌then◌else◌, length, ltb, ◌+◌, ◌-◌,
}

abbrev pub adjectives : List String
adjectives =
    "amber" ∷ "brave" ∷ "calm" ∷ "clever" ∷ "cosmic" ∷ "crisp" ∷ "dawn" ∷ "eager" ∷ "early" ∷ "fair"
    ∷ "fancy" ∷ "gentle" ∷ "giddy" ∷ "glad" ∷ "golden" ∷ "happy" ∷ "hazel" ∷ "ivory" ∷ "jolly"
    ∷ "keen" ∷ "lively" ∷ "lucky" ∷ "mellow" ∷ "merry" ∷ "misty" ∷ "noble" ∷ "olive" ∷ "plucky"
    ∷ "proud" ∷ "quiet" ∷ "rapid" ∷ "royal" ∷ "rustic" ∷ "silent" ∷ "silver" ∷ "smooth" ∷ "snappy"
    ∷ "solar" ∷ "spry" ∷ "still" ∷ "sunny" ∷ "swift" ∷ "tidy" ∷ "vivid" ∷ "warm" ∷ "wise" ∷ "witty"
    ∷ "young" ∷ []

abbrev pub nouns : List String
nouns =
    "anchor" ∷ "arrow" ∷ "badger" ∷ "beacon" ∷ "birch" ∷ "brook" ∷ "canyon" ∷ "cedar" ∷ "comet"
    ∷ "coral" ∷ "cypress" ∷ "delta" ∷ "dune" ∷ "ember" ∷ "falcon" ∷ "fern" ∷ "forge" ∷ "grove"
    ∷ "harbor" ∷ "heron" ∷ "island" ∷ "jasper" ∷ "kestrel" ∷ "lantern" ∷ "ledge" ∷ "lynx" ∷ "maple"
    ∷ "meadow" ∷ "mesa" ∷ "otter" ∷ "peak" ∷ "pine" ∷ "quartz" ∷ "raven" ∷ "reef" ∷ "ridge"
    ∷ "river" ∷ "sable" ∷ "shale" ∷ "slate" ∷ "sparrow" ∷ "spruce" ∷ "summit" ∷ "thicket" ∷ "tundra"
    ∷ "vale" ∷ "willow" ∷ "wren" ∷ []

-- The word at an index; `pick` draws indices below the length only.
abbrev pub word_at : List String → ℕ → Text
word_at [] i = []
word_at (w ∷ ws) zero = codes w
word_at (w ∷ ws) (suc i) = word_at ws i

-- A digit of `hexDigits`.
abbrev pub hex_digit : ℕ → ℕ
hex_digit v = if ltb v 10 then b'0' + v else b'a' + (v - 10)

-- The five numbers that `pick` returns, each below the number that it was given.
pub record Picks : Type 0 where
  pub h0 : ℕ
  pub h1 : ℕ
  pub h2 : ℕ
  pub adjective : ℕ
  pub noun : ℕ

-- `New`
unfoldable pub new_name : Picks → Text
new_name p =
    word_at adjectives p.adjective
    ++ (b'-'
        ∷ (word_at nouns p.noun ++ (b'-' ∷ hex_digit p.h0 ∷ hex_digit p.h1 ∷ hex_digit p.h2 ∷ [])))

abbrev pub is_alnum : ℕ → Bool
is_alnum c = (leb b'a' c && leb c b'z') || (leb b'0' c && leb c b'9')

-- `[a-z0-9-]*[a-z0-9]` on the whole text.
unfoldable pub is_tail : Text → Bool
is_tail [] = false
is_tail (c ∷ []) = is_alnum c
is_tail (c ∷ d ∷ s) = (is_alnum c || c == b'-') && is_tail (d ∷ s)

-- The regular expression `^[a-z0-9]([a-z0-9-]{0,61}[a-z0-9])?$`.
unfoldable pub valid_label : Text → Bool
unfolding is_tail
valid_label [] = false
valid_label (c ∷ []) = is_alnum c
valid_label (c ∷ d ∷ s) = is_alnum c && (leb (length (d ∷ s)) 62 && is_tail (d ∷ s))

-- `strings.Contains(s, "--")`
unfoldable pub has_double_dash : Text → Bool
has_double_dash [] = false
has_double_dash (c ∷ []) = false
has_double_dash (c ∷ d ∷ s) = (c == b'-' && d == b'-') || has_double_dash (d ∷ s)

unfoldable pub valid_subdomain : Text → Bool
unfolding valid_label has_double_dash
valid_subdomain s = valid_label s && not (has_double_dash s)
