-- ===== src/Namegen/Valid.antt =====
-- internal/namegen/namegen.go: what a valid label is, and that every random name is one.
use Prim.Native.String.{String}
use zerock.Prelude.{
  ℕ, zero, suc, ◌≤◌, ◌<◌, ◌≡◌, refl, Bool, true, false, ◌&&◌, ◌||◌, not, List, [], ◌∷◌, ◌++◌, arith,
  Text, codes, leb, ◌==◌, length, length-append, all, has_byte,
}
use zerock.Namegen.{
  Picks, adjectives, nouns, word_at, hex_digit, new_name, is_alnum, is_tail, valid_label,
  has_double_dash, valid_subdomain,
}

-- Lowercase letters and digits, as words and hexadecimal digits are.
abbrev all_alnum : Text → Bool
all_alnum s = all is_alnum s

-- Words of letters and digits with single hyphens between them, the last one not empty.
is_tail-dash :
    (s t : Text) → all_alnum s ≡ true → is_tail t ≡ true → is_tail (s ++ (b'-' ∷ t)) ≡ true
unfolding is_tail
is_tail-dash [] [] hs ht = ht
is_tail-dash [] (c ∷ t) hs ht = ht
is_tail-dash (c ∷ []) t hs ht = ground (arith, is_tail-dash [] t refl ht)
is_tail-dash (c ∷ d ∷ s) t hs ht = ground (arith, is_tail-dash (d ∷ s) t)

is_tail_word : (c : ℕ) (s : Text) → all_alnum (c ∷ s) ≡ true → is_tail (c ∷ s) ≡ true
unfolding is_tail
is_tail_word c [] h = ground arith
is_tail_word c (d ∷ s) h = ground (arith, is_tail_word d s)

-- The text does not begin with a hyphen.
abbrev no_dash_first : Text → Bool
no_dash_first [] = true
no_dash_first (c ∷ s) = not (c == b'-')

no_double_dash_word : (s : Text) → all_alnum s ≡ true → has_double_dash s ≡ false
unfolding has_double_dash
no_double_dash_word [] h = refl
no_double_dash_word (c ∷ []) h = refl
no_double_dash_word (c ∷ d ∷ s) h = ground (arith, no_double_dash_word (d ∷ s))

no_double_dash-dash :
    (s t : Text)
    → all_alnum s ≡ true
    → no_dash_first t ≡ true
    → has_double_dash t ≡ false
    → has_double_dash (s ++ (b'-' ∷ t)) ≡ false
unfolding has_double_dash
no_double_dash-dash [] [] hs hf ht = refl
no_double_dash-dash [] (c ∷ t) hs hf ht = ground arith
no_double_dash-dash (c ∷ []) t hs hf ht = ground (arith, no_double_dash-dash [] t refl)
no_double_dash-dash (c ∷ d ∷ s) t hs hf ht = ground (arith, no_double_dash-dash (d ∷ s) t)

-- A word of the two lists: letters, at least one and at most eight.
abbrev is_word : Text → Bool
is_word [] = false
is_word (c ∷ s) = all_alnum (c ∷ s) && leb (length s) 7

words_at :
    (ws : List String) (i : ℕ)
    → all (λ w. is_word (codes w)) ws ≡ true
    → i < length ws
    → is_word (word_at ws i) ≡ true
words_at [] i h lt = elim lt [ ]
words_at (w ∷ ws) zero h lt = ground arith
words_at (w ∷ ws) (suc i) h lt = words_at ws i (ground arith) (omega arith)

adjectives_are_words : all (λ w. is_word (codes w)) adjectives ≡ true
adjectives_are_words = refl

nouns_are_words : all (λ w. is_word (codes w)) nouns ≡ true
nouns_are_words = refl

hex_digit-alnum : (v : ℕ) → v < 16 → is_alnum (hex_digit v) ≡ true
hex_digit-alnum v h = ground arith

-- `is_tail` past a first letter or digit.
is_tail_cons : (c : ℕ) (t : Text) → is_alnum c ≡ true → is_tail t ≡ true → is_tail (c ∷ t) ≡ true
unfolding is_tail
is_tail_cons c [] hc ht = hc
is_tail_cons c (d ∷ s) hc ht = ground arith

double_dash_cons :
    (c : ℕ) (t : Text)
    → is_alnum c ≡ true
    → has_double_dash t ≡ false
    → has_double_dash (c ∷ t) ≡ false
unfolding has_double_dash
double_dash_cons c [] hc ht = refl
double_dash_cons c (d ∷ s) hc ht = ground arith

-- What the tail of a name, from its second character on, has to be.
record IsRest (t : Text) : Type 0 where
  tail : is_tail t ≡ true
  dashes : has_double_dash t ≡ false

word-dash :
    (s t : Text) → all_alnum s ≡ true → no_dash_first t ≡ true → IsRest t → IsRest (s ++ (b'-' ∷ t))
word-dash s t hs hf r = record {
  tail = is_tail-dash s t hs r.tail;
  dashes = no_double_dash-dash s t hs hf r.dashes;
}

valid_cons :
    (c : ℕ) (t : Text)
    → is_alnum c ≡ true
    → length t ≤ 62
    → IsRest t
    → valid_subdomain (c ∷ t) ≡ true
unfolding valid_subdomain
valid_cons c [] hc hl r = unfold valid_label has_double_dash in ground arith
valid_cons c (d ∷ s) hc hl r =
    rw (double_dash_cons c (d ∷ s) hc r.dashes) (unfold valid_label in ground (arith, r.tail))

named-valid :
    (c : ℕ) (s n : Text) (x y z : ℕ)
    → is_word (c ∷ s) ≡ true
    → is_word n ≡ true
    → all_alnum (x ∷ y ∷ z ∷ []) ≡ true
    → valid_subdomain (c ∷ (s ++ (b'-' ∷ (n ++ (b'-' ∷ x ∷ y ∷ z ∷ []))))) ≡ true
named-valid c s [] x y z ha hn hx = cc
named-valid c s (d ∷ n) x y z ha hn hx =
    let suffix : IsRest (x ∷ y ∷ z ∷ []) = record {
      tail = is_tail_word x (y ∷ z ∷ []) hx;
      dashes = no_double_dash_word (x ∷ y ∷ z ∷ []) hx;
    } in
    let noun = word-dash (d ∷ n) (x ∷ y ∷ z ∷ []) (ground arith) (ground arith) suffix in
    let rest =
      word-dash s ((d ∷ n) ++ (b'-' ∷ x ∷ y ∷ z ∷ [])) (ground arith) (ground arith) noun in
    valid_cons c (s ++ (b'-' ∷ ((d ∷ n) ++ (b'-' ∷ x ∷ y ∷ z ∷ [])))) (ground arith)
      (ground (
        arith,
        length-append s (b'-' ∷ ((d ∷ n) ++ (b'-' ∷ x ∷ y ∷ z ∷ []))),
        length-append (d ∷ n) (b'-' ∷ x ∷ y ∷ z ∷ []),
      ))
      rest

words-valid :
    (a n : Text) (x y z : ℕ)
    → is_word a ≡ true
    → is_word n ≡ true
    → all_alnum (x ∷ y ∷ z ∷ []) ≡ true
    → valid_subdomain (a ++ (b'-' ∷ (n ++ (b'-' ∷ x ∷ y ∷ z ∷ [])))) ≡ true
words-valid [] n x y z ha hn hx = cc
words-valid (c ∷ s) n x y z ha hn hx = named-valid c s n x y z ha hn hx

-- Every name that `New` makes is a valid subdomain, whatever it draws.
pub new_name-valid :
    (p : Picks)
    → p.h0 < 16
    → p.h1 < 16
    → p.h2 < 16
    → p.adjective < length adjectives
    → p.noun < length nouns
    → valid_subdomain (new_name p) ≡ true
unfolding new_name
new_name-valid p h0 h1 h2 ha hn =
    words-valid (word_at adjectives p.adjective) (word_at nouns p.noun) (hex_digit p.h0)
      (hex_digit p.h1) (hex_digit p.h2) (words_at adjectives p.adjective adjectives_are_words ha)
      (words_at nouns p.noun nouns_are_words hn)
      (rw (hex_digit-alnum p.h0 h0, hex_digit-alnum p.h1 h1, hex_digit-alnum p.h2 h2))

-- What is allowed in a label.
abbrev pub is_label_byte : ℕ → Bool
is_label_byte c = is_alnum c || c == b'-'

is_tail-bytes : (s : Text) → is_tail s ≡ true → all is_label_byte s ≡ true
unfolding is_tail
is_tail-bytes [] h = refl
is_tail-bytes (c ∷ []) h = ground arith
is_tail-bytes (c ∷ d ∷ s) h = ground (arith, is_tail-bytes (d ∷ s))

no_dot : (s : Text) → all is_label_byte s ≡ true → has_byte b'.' s ≡ false
unfolding has_byte
no_dot [] h = refl
no_dot (c ∷ s) h = ground (arith, no_dot s)

-- A valid subdomain is one DNS label: one to 63 bytes, each a lowercase letter, a digit or a hyphen,
-- and so without a dot.
pub valid_subdomain_sound :
    (s : Text)
    → valid_subdomain s ≡ true
    → (1 ≤ length s) × (length s ≤ 63) × (all is_label_byte s ≡ true) × (has_byte b'.' s ≡ false)
unfolding valid_subdomain valid_label
valid_subdomain_sound [] h = cc
valid_subdomain_sound (c ∷ []) h =
    (omega arith, omega arith, ground arith, no_dot (c ∷ []) (ground arith))
valid_subdomain_sound (c ∷ d ∷ s) h =
    let rest = is_tail-bytes (d ∷ s) in
    (omega arith, ground arith, ground (arith, rest), no_dot (c ∷ d ∷ s) (ground (arith, rest)))
