-- ===== src/Server/Tcp.antt =====
-- internal/server/tcp.go: choosing the public port of a TCP tunnel. `listen` says for each port
-- whether the operating system lets the server bind it.
pub mod Choice
use zerock.Prelude.{
  ℕ, zero, suc, ◌+◌, ◌-◌, Bool, true, false, ◌&&◌, ◌||◌, not, Option, none, some, ℤ, pos, pos_part,
  neg_part, leb_ℤ, ltb_ℤ, eqb_ℤ, suc_ℤ, if◌then◌else◌,
}
use zerock.Server.Config.{PortRange}
use zerock.Server.Registry.{Registry, port_taken}

pub data Bound : Type 0 where
  bound : ℤ → Bound
  outside in_use not_opened no_free_port : Bound

-- The loop `for port := rng.From; port <= rng.To; port++`, on fuel for its rounds.
unfoldable pub walk : ℕ → (ℤ → Bool) → ℤ → ℤ → Bound
walk zero free to port = no_free_port
walk (suc fuel) free to port =
    let rest = walk fuel free to (suc_ℤ port) in
    if leb_ℤ port to then (if free port then bound port else rest) else no_free_port

-- To - From + 1, which is the number of rounds, and one more to end by the test.
abbrev pub rounds : PortRange → ℕ
rounds rng = suc (suc (pos_part rng.to + neg_part rng.from) - (neg_part rng.to + pos_part rng.from))

abbrev pub is_free : Registry → (ℤ → Bool) → ℤ → Bool
is_free r listen port = if port_taken r port then false else listen port

unfoldable pub bind_requested : PortRange → Registry → (ℤ → Bool) → ℤ → Bound
bind_requested rng r listen requested =
    if ltb_ℤ requested rng.from || ltb_ℤ rng.to requested
    then outside
    else if port_taken r requested
    then in_use
    else if listen requested
    then bound requested
    else not_opened

unfoldable pub bind_tcp : PortRange → Registry → (ℤ → Bool) → ℤ → Bound
bind_tcp rng r listen requested =
    if not (eqb_ℤ requested (pos 0))
    then bind_requested rng r listen requested
    else walk (rounds rng) (is_free r listen) rng.to rng.from
