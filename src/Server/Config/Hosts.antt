-- ===== src/Server/Config/Hosts.antt =====
-- internal/server/config.go: `subdomainOf` finds a label in a host exactly where it stands.
use zerock.Prelude.{
  ◌≤◌, ◌≡◌, ◌≢◌, refl, ap, ◌∙◌, true, false, Option, none, some, [], ◌∷◌, ◌++◌, arith, Text,
  to_lower, has_byte, all, length,
}
use zerock.Prelude.Strings.{trim, trim_right, keep_left, lower_byte}
use zerock.Prelude.Strings.Laws.{trim-append, to_lower-append, cut_suffix_sound, cut_suffix-append}
use zerock.Namegen.{valid_subdomain}
use zerock.Namegen.Valid.{valid_subdomain_sound, is_label_byte}
use zerock.Server.Config.Normal.{to_lower_label}
use zerock.Server.Config.{is_dot, one_label, subdomain_of}

-- A domain in the form that `normalize` gives it: lowercase, not empty, with no dot at its end.
pub record IsNormalDomain (domain : Text) : Type 0 where
  pub lower : to_lower domain ≡ domain
  pub trimmed : trim_right is_dot domain ≡ domain
  pub some_byte : domain ≢ []

one_label_sound :
    (o : Option Text) (label : Text)
    → one_label o ≡ some label
    → (o ≡ some label) × (label ≢ []) × (has_byte b'.' label ≡ false)
unfolding one_label
one_label_sound none label h = cc
one_label_sound (some []) label h = cc
one_label_sound (some (c ∷ l)) label h = ground arith

-- A label that is found is one: it is not empty, has no dot, and the host, lowercased and without
-- dots around it, is the label, a dot and the domain.
pub subdomain_of_sound :
    (domain host label : Text)
    → subdomain_of domain host ≡ some label
    → (to_lower (trim is_dot host) ≡ label ++ (b'.' ∷ domain))
      × (label ≢ [])
      × (has_byte b'.' label ≡ false)
unfolding subdomain_of
subdomain_of_sound domain host label h =
    let (found, ne, dotless) = one_label_sound _ label h in
    (cut_suffix_sound (to_lower (trim is_dot host)) (b'.' ∷ domain) label found, ne, dotless)

dot_domain-trimmed :
    (domain : Text)
    → trim_right is_dot domain ≡ domain
    → domain ≢ []
    → trim_right is_dot (b'.' ∷ domain) ≡ b'.' ∷ domain
unfolding trim_right keep_left
dot_domain-trimmed [] h ne = absurd (ne refl)
dot_domain-trimmed (c ∷ d) h ne = ap (keep_left is_dot b'.') h

host_lower :
    (label domain : Text)
    → all is_label_byte label ≡ true
    → to_lower domain ≡ domain
    → to_lower (label ++ (b'.' ∷ domain)) ≡ label ++ (b'.' ∷ domain)
unfolding to_lower lower_byte
host_lower label domain hl hd =
    to_lower-append label (b'.' ∷ domain) ∙ rw (to_lower_label label hl, hd)

host_trimmed :
    (label domain : Text)
    → 1 ≤ length label
    → all is_label_byte label ≡ true
    → IsNormalDomain domain
    → trim is_dot (label ++ (b'.' ∷ domain)) ≡ label ++ (b'.' ∷ domain)
host_trimmed [] domain one hl n = absurd (omega arith)
host_trimmed (c ∷ l) domain one hl n =
    trim-append is_dot c l (b'.' ∷ domain) (ground arith) (λ e. cc)
      (dot_domain-trimmed domain n.trimmed n.some_byte)

one_label_valid :
    (label : Text)
    → 1 ≤ length label
    → has_byte b'.' label ≡ false
    → one_label (some label) ≡ some label
unfolding one_label
one_label_valid [] one h = absurd (omega arith)
one_label_valid (c ∷ l) one h = ground arith

-- Every subdomain that may be claimed is the one that its public host resolves to.
pub subdomain_of-host :
    (domain label : Text)
    → IsNormalDomain domain
    → valid_subdomain label ≡ true
    → subdomain_of domain (label ++ (b'.' ∷ domain)) ≡ some label
unfolding subdomain_of
subdomain_of-host domain label n valid =
    let (one, _, bytes, dotless) = valid_subdomain_sound label valid in
    rw
      (
        host_trimmed label domain one bytes n,
        host_lower label domain bytes n.lower,
        cut_suffix-append label (b'.' ∷ domain),
      )
      (one_label_valid label one dotless)
