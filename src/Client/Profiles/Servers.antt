-- ===== src/Client/Profiles/Servers.antt =====
-- internal/client/config.go: `SplitServer` reads what `ControlAddr` writes.
use zerock.Prelude.{
  ℕ, ◌≡◌, refl, sym, ap, ◌∙◌, inl, inr, Bool, true, false, ◌==◌, none, [], ◌∷◌, ◌++◌, arith, Text,
  codes, pos, leb, all, has_byte, is_empty, cut_suffix, cut_prefix, Option-cases, if◌then◌else◌,
}
use zerock.Prelude.Strings.{trim_right, keep_left}
use zerock.Prelude.Strings.Laws.{trim-append, cut_suffix_sound}
use zerock.Prelude.Net.{decimal, is_digit, join_host_port}
use zerock.Prelude.Net.Laws.{decimal-digits, atoi-decimal, split_host_port-plain}
use zerock.Hosts.{
  is_host_byte, is_address_byte, address-lower, address-trim_space, host_is_address, address_bytes,
  host-has_byte, host_plain, port_plain,
}
use zerock.Client.Profiles.{
  Profile, ok, port_or_default, control_addr, is_dot, bare_server, checked_port, split_bare,
  split_server,
}

-- A prefix that has a byte which the text lacks is none of it.
cut_prefix_lacking :
    (b : ℕ) (s prefix : Text)
    → has_byte b prefix ≡ true
    → has_byte b s ≡ false
    → cut_prefix s prefix ≡ none
unfolding cut_prefix has_byte
cut_prefix_lacking b [] [] h n = cc
cut_prefix_lacking b (d ∷ s) [] h n = cc
cut_prefix_lacking b [] (c ∷ prefix) h n = refl
cut_prefix_lacking b (d ∷ s) (c ∷ prefix) h n = ground (arith, cut_prefix_lacking b s prefix)

has_byte-append_last : (b : ℕ) (s : Text) → has_byte b (s ++ b ∷ []) ≡ true
unfolding has_byte
has_byte-append_last b [] = ground arith
has_byte-append_last b (c ∷ s) = ground (arith, has_byte-append_last b s)

cut_slash_lacking : (s : Text) → has_byte b'/' s ≡ false → cut_suffix s (codes "/") ≡ none
cut_slash_lacking s h = elim (Option-cases (cut_suffix s (codes "/"))) [
  | inl e ↦ e
  | inr (l, e) ↦ absurd (
      let bad : true ≡ false =
        sym (has_byte-append_last b'/' l)
        ∙ ap (has_byte b'/') (sym (cut_suffix_sound s (codes "/") l e))
        ∙ h in
      cc)
]

-- Bytes of an address are no slash.
address_lacks_slash : (s : Text) → all is_address_byte s ≡ true → has_byte b'/' s ≡ false
unfolding has_byte
address_lacks_slash [] h = refl
address_lacks_slash (c ∷ s) h = ground (arith, address_lacks_slash s)

digits-trim_right : (s : Text) → all is_digit s ≡ true → trim_right is_dot s ≡ s
unfolding trim_right keep_left
digits-trim_right [] h = refl
digits-trim_right (c ∷ []) h = ground arith
digits-trim_right (c ∷ d ∷ s) h = ground (arith, digits-trim_right (d ∷ s))

colon_last :
    (port : Text) → trim_right is_dot port ≡ port → trim_right is_dot (b':' ∷ port) ≡ b':' ∷ port
unfolding trim_right keep_left
colon_last [] e = refl
colon_last (x ∷ p) e = ap (keep_left is_dot b':') e

-- The text of an address passes through the trimming of `SplitServer` unchanged.
bare_server-address :
    (c : ℕ) (host port : Text)
    → c == b'.' ≡ false
    → all is_host_byte (c ∷ host) ≡ true
    → all is_digit port ≡ true
    → bare_server ((c ∷ host) ++ (b':' ∷ port)) ≡ (c ∷ host) ++ (b':' ∷ port)
unfolding bare_server has_byte
bare_server-address c host port first h d =
    let bytes = address_bytes (c ∷ host) port h d in
    let lacks = address_lacks_slash ((c ∷ host) ++ (b':' ∷ port)) bytes in
    rw
      (
        address-trim_space ((c ∷ host) ++ (b':' ∷ port)) bytes,
        cut_prefix_lacking b'/' ((c ∷ host) ++ (b':' ∷ port)) (codes "https://") refl lacks,
        cut_prefix_lacking b'/' ((c ∷ host) ++ (b':' ∷ port)) (codes "http://") refl lacks,
        cut_slash_lacking ((c ∷ host) ++ (b':' ∷ port)) lacks,
      )
      (trim-append is_dot c host (b':' ∷ port) first (λ e. cc)
        (colon_last port (digits-trim_right port d)))

abbrev starts_with_dot : Text → Bool
starts_with_dot [] = false
starts_with_dot (c ∷ s) = is_dot c

-- A host that `SplitServer` leaves as it is.
pub record IsHost (host : Text) : Type 0 where
  pub some_byte : is_empty host ≡ false
  pub bytes : all is_host_byte host ≡ true
  pub first : starts_with_dot host ≡ false

split_server-address :
    (host : Text) (n : ℕ)
    → IsHost host
    → leb 1 n ≡ true
    → leb n 65535 ≡ true
    → split_server (host ++ (b':' ∷ decimal (pos n))) ≡ ok (host, pos n)
unfolding split_server split_bare checked_port
split_server-address [] n h low high = absurd (ground (arith, h.some_byte))
split_server-address (c ∷ host) n h low high =
    rw
      (
        bare_server-address c host (decimal (pos n)) h.first h.bytes (decimal-digits n),
        split_host_port-plain (c ∷ host) (decimal (pos n)) (host_plain (c ∷ host) h.bytes)
            (port_plain (decimal (pos n)) (decimal-digits n)),
        atoi-decimal n,
        address-lower (c ∷ host) (host_is_address (c ∷ host) h.bytes),
      )
      (ground arith)

join-plain :
    (host port : Text)
    → all is_host_byte host ≡ true
    → join_host_port host port ≡ host ++ (b':' ∷ port)
unfolding join_host_port
join-plain host port h = rw (host-has_byte b':' host refl h)

-- For a profile whose host is not empty, has only lower-case letters, digits, dashes and dots, and
-- does not begin with a dot, and whose control port is from 0 to 65535: `SplitServer` reads the
-- address that the agent dials, which is `ControlAddr`, back as that host and that port, 7223 where
-- the port is 0.
pub split_server-control_addr :
    (p : Profile) (n : ℕ)
    → IsHost p.host
    → p.control_port ≡ pos n
    → leb n 65535 ≡ true
    → split_server (control_addr p) ≡ ok (p.host, pos (if n == 0 then 7223 else n))
unfolding control_addr
split_server-control_addr p n h e high = join_at (ap port_or_default e ∙ default_port n)
  where
    default_port : (k : ℕ) → port_or_default (pos k) ≡ pos (if k == 0 then 7223 else k)
    default_port k = ground arith

    join_at :
        port_or_default p.control_port ≡ pos (if n == 0 then 7223 else n)
        → split_server (join_host_port p.host (decimal (port_or_default p.control_port)))
          ≡ ok (p.host, pos (if n == 0 then 7223 else n))
    join_at q =
        rw (q, join-plain p.host (decimal (pos (if n == 0 then 7223 else n))) h.bytes)
          (split_server-address p.host (if n == 0 then 7223 else n) h (ground arith) (ground arith))
