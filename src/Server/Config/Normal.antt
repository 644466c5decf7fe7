-- ===== src/Server/Config/Normal.antt =====
-- internal/server/config.go: what a normalized configuration guarantees.
use mathlib.Core.Option.{some-injective}
use zerock.Prelude.{
  ◌≡◌, refl, ap, subst, ◌∙◌, inl, inr, Bool, true, false, ◌&&◌, ◌||◌, not, Option, none, some, List,
  [], ◌∷◌, ◌++◌, arith, Text, text_eq, text_dec, member, ℤ, pos, leb_ℤ, ltb_ℤ, if◌then◌else◌,
  is_empty, all, to_lower, trim_space, has_byte, is_space, Option-cases, Distinct, requested,
  member-append_one, append_one-Distinct,
}
use zerock.Prelude.Strings.{lower_byte}
use zerock.Prelude.Strings.Laws.{trim-none}
use zerock.Namegen.{valid_subdomain}
use zerock.Namegen.Valid.{is_label_byte, valid_subdomain_sound}
use zerock.Server.Config.{
  Config, ConfigError, Checked, ok, err, domain_required, domain_shape, unknown_mode,
  bad_port_range, no_data_dir, admit_reserved, reserved_loop, with_label, normal_domain,
  normal_api_host, normal_mode, normalized, check_rest, normalize, subdomain_of, is_reserved,
}

member-admit_reserved :
    (s x : Text) (out : List Text)
    → member s (admit_reserved x out) ≡ (member s out || (not (is_empty s) && text_eq x s))
unfolding admit_reserved
member-admit_reserved s x out = elim (text_dec x s) [
  | yes same ↦ rw same (ground (arith, member-append_one s s out))
  | no other ↦ ground (arith, member-append_one s x out)
]

admit_reserved-Distinct :
    (x : Text) (out : List Text) → Distinct out → Distinct (admit_reserved x out)
unfolding admit_reserved
admit_reserved-Distinct x out d = ground (arith, append_one-Distinct x out)

regroup : (m k e r : Bool) → ((m || (k && e)) || (k && r)) ≡ (m || (k && (e || r)))
regroup m k e r = ground arith

member-reserved_loop :
    (s : Text) (names out : List Text)
    → member s (reserved_loop names out) ≡ (member s out || (not (is_empty s) && requested s names))
unfolding reserved_loop
member-reserved_loop s [] out = ground arith
member-reserved_loop s (x ∷ xs) out =
    let y = to_lower (trim_space x) in
    member-reserved_loop s xs (admit_reserved y out)
    ∙ ap (λ (b : Bool). b || (not (is_empty s) && requested s xs)) (member-admit_reserved s y out)
    ∙ regroup (member s out) (not (is_empty s)) (text_eq y s) (requested s xs)

reserved_loop-Distinct : (names out : List Text) → Distinct out → Distinct (reserved_loop names out)
unfolding reserved_loop
reserved_loop-Distinct [] out d = d
reserved_loop-Distinct (x ∷ xs) out d =
    reserved_loop-Distinct xs _ (admit_reserved-Distinct (to_lower (trim_space x)) out d)

requested_last :
    (s x : Text) (xs : List Text) → to_lower (trim_space x) ≡ s → requested s (xs ++ x ∷ []) ≡ true
requested_last s x [] e = ground arith
requested_last s x (y ∷ ys) e = ground (arith, requested_last s x ys e)

label-no_space : (s : Text) → all is_label_byte s ≡ true → all (λ c. not (is_space c)) s ≡ true
label-no_space [] h = refl
label-no_space (c ∷ s) h = ground (arith, label-no_space s)

pub to_lower_label : (s : Text) → all is_label_byte s ≡ true → to_lower s ≡ s
unfolding to_lower lower_byte
to_lower_label [] h = refl
to_lower_label (c ∷ s) h = ground (arith, to_lower_label s)

-- Cleaning a valid label changes nothing.
pub clean_label : (s : Text) → valid_subdomain s ≡ true → to_lower (trim_space s) ≡ s
unfolding trim_space
clean_label s h =
    let bytes = (valid_subdomain_sound s h).2 in
    ap to_lower (trim-none is_space s (label-no_space s bytes)) ∙ to_lower_label s bytes

-- The checks that a normalized configuration has passed, and what it is.
record Passed (c c' : Config) : Type 0 where
  mode : Text
  domain : Text
  dotted : has_byte b'.' domain ≡ true
  from_positive : ltb_ℤ (pos 0) c.tcp_port_range.from ≡ true
  in_order : leb_ℤ c.tcp_port_range.from c.tcp_port_range.to ≡ true
  same : normalized c domain mode ≡ c'

-- A check that did not fail, and the rest of the chain.
past {ℓ} :
    {A : Type ℓ} (b : Bool) (e : ConfigError) (r : Checked A) (a : A)
    → (if b then err e else r) ≡ ok a
    → (b ≡ false) × (r ≡ ok a)
past true e r a h = cc
past false e r a h = (refl, h)

value {ℓ} : {A : Type ℓ} → A → Checked A → A
value d (ok a) = a
value d (err e) = d

ok-injective {ℓ} : {A : Type ℓ} (a b : A) → ok a ≡ ok b → a ≡ b
unfolding value
ok-injective a b h = ap (value a) h

positive :
    (a b : ℤ)
    → (leb_ℤ a (pos 0) || ltb_ℤ b a) ≡ false
    → (ltb_ℤ (pos 0) a ≡ true) × (leb_ℤ a b ≡ true)
positive a b h = ground arith

check_rest-Passed :
    (c : Config) (domain mode : Text) (c' : Config)
    → has_byte b'.' domain ≡ true
    → check_rest c domain mode ≡ ok c'
    → Passed c c'
unfolding check_rest
check_rest-Passed c domain mode c' dotted h =
    let range =
      leb_ℤ c.tcp_port_range.from (pos 0) || ltb_ℤ c.tcp_port_range.to c.tcp_port_range.from in
    let dir = if is_empty c.data_dir then err no_data_dir else ok (normalized c domain mode) in
    let (good, h') = past range bad_port_range dir c' h in
    let (_, h'') = past (is_empty c.data_dir) no_data_dir (ok (normalized c domain mode)) c' h' in
    let bounds = positive c.tcp_port_range.from c.tcp_port_range.to good in
    record {
      mode = mode;
      domain = domain;
      dotted = dotted;
      from_positive = bounds.0;
      in_order = bounds.1;
      same = ok-injective (normalized c domain mode) c' h'';
    }

-- The part of `normalize` after the checks of the domain.
with_mode : Config → Text → Checked Config
with_mode c domain = elim (normal_mode c.tls.mode) [
  | none ↦ err unknown_mode
  | some mode ↦ check_rest c domain mode
]

with_mode-Passed :
    (c : Config) (domain : Text) (c' : Config)
    → has_byte b'.' domain ≡ true
    → with_mode c domain ≡ ok c'
    → Passed c c'
unfolding with_mode
with_mode-Passed c domain c' dotted h = elim (Option-cases (normal_mode c.tls.mode)) [
  | inl e ↦ absurd (let bad : err unknown_mode ≡ ok c' = rw (e, with_mode) at h in cc)
  | inr (mode, e) ↦ check_rest-Passed c domain mode c' dotted (rw (e, with_mode) at h)
]

normalize-Passed : (c c' : Config) → normalize c ≡ ok c' → Passed c c'
unfolding normalize with_mode
normalize-Passed c c' h =
    let domain = normal_domain c.domain in
    let dots = if not (has_byte b'.' domain) then err domain_shape else with_mode c domain in
    let (_, h') = past (is_empty domain) domain_required dots c' h in
    let (dotted, h'') = past (not (has_byte b'.' domain)) domain_shape (with_mode c domain) c' h' in
    with_mode-Passed c domain c' (ground arith) h''

-- The guarantees of a normalized configuration: its domain has a dot, its port range is not empty
-- and starts above 0, each reserved name is there once and is not empty, and it is exactly the
-- names of the source and the label of the API host, lowercased and trimmed, that are reserved.
pub normalize_lem :
    (c c' : Config)
    → normalize c ≡ ok c'
    → (has_byte b'.' c'.domain ≡ true)
      × (ltb_ℤ (pos 0) c'.tcp_port_range.from ≡ true)
      × (leb_ℤ c'.tcp_port_range.from c'.tcp_port_range.to ≡ true)
      × Distinct c'.reserved_subdomains
      × ((s : Text)
          → is_reserved c' s ≡ (
              not (is_empty s)
              && requested s
                  (with_label (subdomain_of c'.domain c'.api_host) c.reserved_subdomains)))
normalize_lem c c' h =
    let p = normalize-Passed c c' h in
    let names =
      with_label (subdomain_of p.domain (normal_api_host p.domain c.api_host))
        c.reserved_subdomains in
    subst
      (λ (d : Config).
        (has_byte b'.' d.domain ≡ true)
        × (ltb_ℤ (pos 0) d.tcp_port_range.from ≡ true)
        × (leb_ℤ d.tcp_port_range.from d.tcp_port_range.to ≡ true)
        × Distinct d.reserved_subdomains
        × ((s : Text)
            → is_reserved d s ≡ (
                not (is_empty s)
                && requested s
                    (with_label (subdomain_of d.domain d.api_host) c.reserved_subdomains))))
      p.same
      (unfold normalized is_reserved in
        (
          p.dotted,
          p.from_positive,
          p.in_order,
          reserved_loop-Distinct names [] tt,
          λ s. member-reserved_loop s names [],
        ))

reserved_label :
    (reserved : List Text) (found : Option Text) (label : Text)
    → found ≡ some label
    → to_lower (trim_space label) ≡ label
    → requested label (with_label found reserved) ≡ true
reserved_label reserved none label e k = cc
reserved_label reserved (some l) label e k =
    requested_last label l reserved
      (ap (λ (t : Text). to_lower (trim_space t)) (some-injective l label e) ∙ k)

-- The hostname of the API can never be claimed as a tunnel: its label, where it is a valid one
-- under the domain, is reserved.
pub normalize_reserves_api :
    (c c' : Config) (label : Text)
    → normalize c ≡ ok c'
    → subdomain_of c'.domain c'.api_host ≡ some label
    → valid_subdomain label ≡ true
    → is_reserved c' label ≡ true
normalize_reserves_api c c' label h found valid =
    (normalize_lem c c' h).4 label
    ∙ rw
        (reserved_label c.reserved_subdomains (subdomain_of c'.domain c'.api_host) label found
          (clean_label label valid))
        (not_empty label valid)
  where
    not_empty : (l : Text) → valid_subdomain l ≡ true → (not (is_empty l) && true) ≡ true
    not_empty [] v = absurd (omega (arith, (valid_subdomain_sound [] v).0))
    not_empty (x ∷ l) v = refl
