-- ===== src/Server/Tcp/Choice.antt =====
-- internal/server/tcp.go: which port `bindTCP` chooses, and when it finds none.
use zerock.Prelude.{
  ℕ, zero, suc, ◌+◌, ◌-◌, ◌<◌, ◌≡◌, inl, inr, Bool, true, false, arith, ℤ, pos, pos_part, neg_part,
  leb_ℤ, ltb_ℤ, eqb_ℤ, suc_ℤ, Bool-cases, ◌⊎◌, subst,
}
use zerock.Server.Config.{PortRange}
use zerock.Server.Registry.{Registry, port_taken}
use zerock.Server.Tcp.{
  Bound, bound, outside, in_use, not_opened, no_free_port, walk, rounds, is_free, bind_requested,
  bind_tcp,
}

-- How far the loop still is from its end.
abbrev ahead : ℤ → ℤ → ℕ
ahead port to = suc (pos_part to + neg_part port) - (neg_part to + pos_part port)

-- What the loop answers when it starts at a port: the first free one, or that there is none.
abbrev pub Answers : (ℤ → Bool) → ℤ → ℤ → Bound → Type 0
Answers free to port (bound p) =
    (leb_ℤ port p ≡ true)
    × (leb_ℤ p to ≡ true)
    × (free p ≡ true)
    × ((q : ℤ) → leb_ℤ port q ≡ true → ltb_ℤ q p ≡ true → free q ≡ false)
Answers free to port no_free_port =
    (q : ℤ) → leb_ℤ port q ≡ true → leb_ℤ q to ≡ true → free q ≡ false
Answers free to port _ = ⊥

next_port : (port q : ℤ) → leb_ℤ port q ≡ true → (q ≡ port) ⊎ (leb_ℤ (suc_ℤ port) q ≡ true)
next_port port q h = ground arith

suc-ahead : (port to : ℤ) → leb_ℤ port to ≡ true → suc (ahead (suc_ℤ port) to) ≡ ahead port to
suc-ahead port to h = ground arith

skip :
    (free : ℤ → Bool) (to port : ℤ) (b : Bound)
    → free port ≡ false
    → Answers free to (suc_ℤ port) b
    → Answers free to port b
skip free to port (bound p) taken a = (
  ground (arith, a.0),
  a.1,
  a.2,
  λ q from below. elim (next_port port q from) [
    | inl same ↦ rw same taken
    | inr later ↦ a.3 q later below
  ],
)
skip free to port no_free_port taken a = λ q from below. elim (next_port port q from) [
  | inl same ↦ rw same taken
  | inr later ↦ a q later below
]
skip free to port outside taken a = absurd a
skip free to port in_use taken a = absurd a
skip free to port not_opened taken a = absurd a

walk-Answers :
    (fuel : ℕ) (free : ℤ → Bool) (to port : ℤ)
    → ahead port to < fuel
    → Answers free to port (walk fuel free to port)
unfolding walk
walk-Answers zero free to port enough = elim enough [ ]
walk-Answers (suc fuel) free to port enough = elim (Bool-cases (leb_ℤ port to)) [
  | inr over ↦ rw over (λ q from below. absurd (ground arith))
  | inl inside ↦ elim (Bool-cases (free port)) [
    | inl yes_free ↦
        rw (inside, yes_free)
          (ground arith, inside, yes_free, λ q from below. absurd (ground arith))
    | inr taken ↦
        rw (inside, taken)
          (skip free to port _ taken
            (walk-Answers fuel free to (suc_ℤ port) (omega (arith, suc-ahead port to inside))))
  ]
]

-- Without a requested port, `bindTCP` binds the first port of the range that no tunnel has and that
-- can be opened; it reports that there is none only if every port of the range is taken or cannot
-- be opened, and it gives no other answer.
pub bind_tcp_any :
    (rng : PortRange) (r : Registry) (listen : ℤ → Bool)
    → Answers (is_free r listen) rng.to rng.from (bind_tcp rng r listen (pos 0))
unfolding bind_tcp
bind_tcp_any rng r listen =
    walk-Answers (rounds rng) (is_free r listen) rng.to rng.from (omega arith)

-- A requested port is bound as it is, and only inside the range, with no tunnel on it.
pub bind_requested_sound :
    (rng : PortRange) (r : Registry) (listen : ℤ → Bool) (requested p : ℤ)
    → bind_requested rng r listen requested ≡ bound p
    → (p ≡ requested)
      × (leb_ℤ rng.from p ≡ true)
      × (leb_ℤ p rng.to ≡ true)
      × (port_taken r p ≡ false)
      × (listen p ≡ true)
unfolding bind_requested
bind_requested_sound rng r listen requested p h = ground arith

-- Whatever port was asked for, a port that is bound lies in the range, has no tunnel, could be
-- opened, and is the one that was asked for unless that was 0.
pub bind_tcp_sound :
    (rng : PortRange) (r : Registry) (listen : ℤ → Bool) (requested p : ℤ)
    → bind_tcp rng r listen requested ≡ bound p
    → (leb_ℤ rng.from p ≡ true)
      × (leb_ℤ p rng.to ≡ true)
      × (port_taken r p ≡ false)
      × (listen p ≡ true)
      × (eqb_ℤ requested (pos 0) ≡ false → p ≡ requested)
unfolding bind_tcp
bind_tcp_sound rng r listen requested p h = elim (Bool-cases (eqb_ℤ requested (pos 0))) [
  | inl any ↦
      let found : walk (rounds rng) (is_free r listen) rng.to rng.from ≡ bound p = rw any at h in
      let (low, high, free, _) =
        subst (Answers (is_free r listen) rng.to rng.from) found
          (walk-Answers (rounds rng) (is_free r listen) rng.to rng.from (omega arith)) in
      (low, high, ground arith, ground arith, λ e. absurd (ground arith))
  | inr asked ↦
      let (same, low, high, untaken, opened) =
        bind_requested_sound rng r listen requested p (rw asked at h) in
      (low, high, untaken, opened, λ e. same)
]
