-- ===== src/Server/Registry.antt =====
-- internal/server/registry.go: the registry of live tunnels, by subdomain, by public port and
-- counted by token. The maps hold tunnels, and `==` on pointers compares their `ref`.
pub mod Invariant
pub mod Stale
pub mod Views
use zerock.Prelude.{
  ℕ, zero, suc, ◌+◌, ◌-◌, Bool, true, false, ◌&&◌, ◌||◌, not, Option, none, some, List, [], ◌∷◌,
  Text, text_eq, text_dec, ℤ, pos, eqb_ℤ, int_dec, leb, ◌==◌, if◌then◌else◌, is_empty, select, sort,
  text_lt,
}
use zerock.Prelude.Assoc
use zerock.Prelude.Assoc.{Assoc, passes}
use zerock.Server.Tunnel.{Tunnel}

pub record Registry : Type 0 where
  pub by_sub : Assoc Text Tunnel
  pub by_port : Assoc ℤ Tunnel
  pub by_token : Assoc Text ℕ

abbrev pub new_registry : Registry
new_registry = record { by_sub = []; by_port = []; by_token = [] }

-- A missing key of a Go map of numbers reads as 0.
abbrev pub or_zero : Option ℕ → ℕ
or_zero none = 0
or_zero (some n) = n

-- `countForToken`
unfoldable pub count_for_token : Registry → Text → ℕ
count_for_token r token_id = or_zero (Assoc.find text_dec r.by_token token_id)

-- `claimed`
unfoldable pub claimed : Registry → Text → Option Tunnel
claimed r sub = Assoc.find text_dec r.by_sub sub

-- `portTaken`
unfoldable pub port_taken : Registry → ℤ → Bool
port_taken r port = passes (λ t. true) (Assoc.find int_dec r.by_port port)

-- The writes of `add` on a subdomain that is free.
unfoldable pub enter : Registry → Tunnel → Registry
enter r t = record {
  by_sub = Assoc.put text_dec r.by_sub t.subdomain t;
  by_port =
      if eqb_ℤ t.public_port (pos 0)
      then r.by_port
      else Assoc.put int_dec r.by_port t.public_port t;
  by_token =
      Assoc.put text_dec r.by_token t.token_id
        (or_zero (Assoc.find text_dec r.by_token t.token_id) + 1);
}

-- `none` is `errSubBusy`.
unfoldable pub add : Registry → Tunnel → Option Registry
add r t = elim (Assoc.find text_dec r.by_sub t.subdomain) [
  | some cur ↦ none
  | none ↦ some (enter r t)
]

-- `cur, ok := m[k]; ok && cur == t`
abbrev pub is_cur : Tunnel → Option Tunnel → Bool
is_cur t = passes λ cur. cur.ref == t.ref

unfoldable pub remove : Registry → Tunnel → Registry
remove r t = record {
  by_sub =
      if is_cur t (Assoc.find text_dec r.by_sub t.subdomain)
      then Assoc.erase text_dec r.by_sub t.subdomain
      else r.by_sub;
  by_port =
      if not (eqb_ℤ t.public_port (pos 0)) && is_cur t (Assoc.find int_dec r.by_port t.public_port)
      then Assoc.erase int_dec r.by_port t.public_port
      else r.by_port;
  by_token =
      let n = or_zero (Assoc.find text_dec r.by_token t.token_id) in
      if leb n 1
      then Assoc.erase text_dec r.by_token t.token_id
      else Assoc.put text_dec r.by_token t.token_id (n - 1);
}

-- `lookup`: a tunnel that is not ready is invisible. `ready` reads the flag of a tunnel.
unfoldable pub lookup : (ℕ → Bool) → Registry → Text → Option Tunnel
unfolding claimed
lookup ready r sub = elim (claimed r sub) [
  | none ↦ none
  | some t ↦ if ready t.ref then some t else none
]

-- The loop of `byID`, in the order in which the map is visited.
unfoldable pub first_by_id : (ℕ → Bool) → Text → List Tunnel → Option Tunnel
first_by_id ready id [] = none
first_by_id ready id (t ∷ ts) =
    let rest = first_by_id ready id ts in if text_eq t.id id && ready t.ref then some t else rest

unfoldable pub by_id : (ℕ → Bool) → Registry → Text → Option Tunnel
unfolding first_by_id
by_id ready r id = first_by_id ready id (Assoc.values r.by_sub)

-- The test of the loop of `list`.
abbrev pub is_listed : (ℕ → Bool) → Text → Tunnel → Bool
is_listed ready token_id t =
    if not (ready t.ref) then false else is_empty token_id || text_eq t.token_id token_id

unfoldable pub list : (ℕ → Bool) → Registry → Text → List Tunnel
unfolding sort text_lt
list ready r token_id =
    sort (λ a b. text_lt a.subdomain b.subdomain)
      (select (is_listed ready token_id) (Assoc.values r.by_sub))
