-- ===== src/Server/Lifecycle.antt =====
-- internal/server/control.go and registry.go: the end of a tunnel, from its session's end in
-- `releaseTunnel` and from the server's shutdown in `closeAll`, and what `Close` makes of several
-- such ends.
use zerock.Prelude.{
  ℕ, ◌≡◌, refl, Bool, true, false, Option, none, some, List, [], ◌∷◌, ◌++◌, append-nil, arith, Text,
  text_dec,
}
use zerock.Prelude.Assoc
use zerock.Prelude.Assoc.{Assoc}
use zerock.Server.Tunnel.{Tunnel, Cell, close}
use zerock.Server.Registry.{remove}
use zerock.Server.Api.{Live, tagged, set_cell, drop}

-- `t.Close(reason, final)` on the cell behind the pointer.
unfoldable pub close_ref : Text → Bool → ℕ → Live → Live
close_ref reason final ref l = record l {
  cells = set_cell l.cells ref (close (l.cells ref) reason final).0;
  effects = l.effects ++ tagged ref (close (l.cells ref) reason final).1;
}

-- `none` is the nil pointer.
unfoldable pub release_tunnel : Option Tunnel → Live → Live
release_tunnel none l = l
release_tunnel (some t) l = close_ref [] false t.ref (record l { registry = remove l.registry t })

unfoldable pub close_each : Text → List Tunnel → Live → Live
close_each reason [] l = l
close_each reason (t ∷ ts) l = close_each reason ts (close_ref reason false t.ref l)

unfoldable pub close_all : Text → Live → Live
close_all reason l = close_each reason (Assoc.values l.registry.by_sub) l

pub closed-close :
    (c : Cell) (reason : Text) (final : Bool) → (close c reason final).0.closed ≡ true
unfolding close
closed-close c reason final = ground arith

close_closed :
    (c : Cell) (reason : Text) (final : Bool) → c.closed ≡ true → close c reason final ≡ (c, [])
unfolding close
close_closed c reason final h = rw h refl

drop-closed :
    (reason : Text) (t : Tunnel) (l : Live) → ((drop reason t l).cells t.ref).closed ≡ true
unfolding drop
drop-closed reason t l = ground (arith, closed-close (l.cells t.ref) reason true)

-- When a tunnel was closed from the API, the release that follows the end of its session does
-- nothing more to the outside: the agent was told once, with the first reason.
pub release_tunnel-drop :
    (reason : Text) (t : Tunnel) (l : Live)
    → (release_tunnel (some t) (drop reason t l)).effects ≡ (drop reason t l).effects
unfolding release_tunnel close_ref
release_tunnel-drop reason t l =
    rw (close_closed ((drop reason t l).cells t.ref) [] false (drop-closed reason t l))
      (append-nil (drop reason t l).effects)

closed_stays :
    (reason : Text) (ts : List Tunnel) (l : Live) (ref : ℕ)
    → (l.cells ref).closed ≡ true
    → ((close_each reason ts l).cells ref).closed ≡ true
unfolding close_each close_ref
closed_stays reason [] l ref h = h
closed_stays reason (t ∷ ts) l ref h =
    closed_stays reason ts (close_ref reason false t.ref l) ref
      (ground (arith, closed-close (l.cells t.ref) reason false))

close_each_closes :
    (reason : Text) (m : Assoc Text Tunnel) (l : Live) (k : Text) (u : Tunnel)
    → Assoc.find text_dec m k ≡ some u
    → ((close_each reason (Assoc.values m) l).cells u.ref).closed ≡ true
unfolding close_each close_ref Assoc.find
close_each_closes reason [] l k u h = cc
close_each_closes reason ((j, v) ∷ m) l k u h = elim (text_dec j k) [
  | yes e ↦
      closed_stays reason (Assoc.values m) (close_ref reason false v.ref l) u.ref
        (ground (arith, closed-close (l.cells v.ref) reason false))
  | no ne ↦ close_each_closes reason m (close_ref reason false v.ref l) k u (ground arith)
]

kept_registry :
    (reason : Text) (ts : List Tunnel) (l : Live) → (close_each reason ts l).registry ≡ l.registry
unfolding close_each close_ref
kept_registry reason [] l = refl
kept_registry reason (t ∷ ts) l = kept_registry reason ts (close_ref reason false t.ref l)

-- Shutdown closes every tunnel of the registry, ready or not, and leaves the registry to the
-- releases that follow.
pub close_all_lem :
    (reason : Text) (l : Live)
    → ((close_all reason l).registry ≡ l.registry)
      × ((k : Text) (u : Tunnel)
          → Assoc.find text_dec l.registry.by_sub k ≡ some u
          → ((close_all reason l).cells u.ref).closed ≡ true)
unfolding close_all
close_all_lem reason l = (
  kept_registry reason (Assoc.values l.registry.by_sub) l,
  λ k u there. close_each_closes reason l.registry.by_sub l k u there,
)
