-- ===== src/Hosts.antt =====
-- The texts of hosts in lower case and of their addresses, on the server's side and the client's.
use zerock.Prelude.{
  ℕ, ◌≡◌, refl, ◌∙◌, Bool, true, false, ◌||◌, not, ◌==◌, [], ◌∷◌, ◌++◌, arith, Text, all, has_byte,
  to_lower, trim_space, all-append,
}
use zerock.Prelude.Strings.{lower_byte, is_space}
use zerock.Prelude.Strings.Laws.{trim-none}
use zerock.Prelude.Net.{is_digit}
use zerock.Prelude.Net.Laws.{is_plain, has_byte-digits}
use zerock.Namegen.Valid.{is_label_byte}

-- The bytes of hosts in lower case.
abbrev pub is_host_byte : ℕ → Bool
is_host_byte c = is_label_byte c || c == b'.'

-- Those of a host and a port.
abbrev pub is_address_byte : ℕ → Bool
is_address_byte c = is_host_byte c || c == b':'

pub address-lower : (s : Text) → all is_address_byte s ≡ true → to_lower s ≡ s
unfolding to_lower lower_byte
address-lower [] h = refl
address-lower (c ∷ s) h = ground (arith, address-lower s)

pub all_lack :
    (good p : ℕ → Bool) (s : Text)
    → ((c : ℕ) → good c ≡ true → p c ≡ false)
    → all good s ≡ true
    → all (λ c. not (p c)) s ≡ true
all_lack good p [] q h = refl
all_lack good p (c ∷ s) q h = ground (arith, all_lack good p s q, q c)

pub address-trim_space : (s : Text) → all is_address_byte s ≡ true → trim_space s ≡ s
unfolding trim_space
address-trim_space s h =
    trim-none is_space s (all_lack is_address_byte is_space s (λ c. ground arith) h)

pub host_is_address : (s : Text) → all is_host_byte s ≡ true → all is_address_byte s ≡ true
host_is_address [] h = refl
host_is_address (c ∷ s) h = ground (arith, host_is_address s)

pub digits_are_address : (s : Text) → all is_digit s ≡ true → all is_address_byte s ≡ true
digits_are_address [] h = refl
digits_are_address (c ∷ s) h = ground (arith, digits_are_address s)

pub host-has_byte :
    (b : ℕ) (s : Text) → is_host_byte b ≡ false → all is_host_byte s ≡ true → has_byte b s ≡ false
unfolding has_byte
host-has_byte b [] n h = refl
host-has_byte b (c ∷ s) n h = ground (arith, host-has_byte b s n)

pub host_plain : (s : Text) → all is_host_byte s ≡ true → is_plain s ≡ true
host_plain s h =
    rw (host-has_byte b':' s refl h, host-has_byte b'[' s refl h, host-has_byte b']' s refl h)

pub port_plain : (s : Text) → all is_digit s ≡ true → is_plain s ≡ true
port_plain s h =
    rw (has_byte-digits b':' s refl h, has_byte-digits b'[' s refl h, has_byte-digits b']' s refl h)

pub address_bytes :
    (host port : Text)
    → all is_host_byte host ≡ true
    → all is_digit port ≡ true
    → all is_address_byte (host ++ (b':' ∷ port)) ≡ true
address_bytes host port h d =
    all-append is_address_byte host (b':' ∷ port)
    ∙ rw (host_is_address host h, digits_are_address port d)
