-- ===== src/Tray/Manager/Summed.antt =====
-- internal/tray/manager.go: what `Summary` amounts to, whatever the order of the names.
use zerock.Prelude.{
  ℕ, ◌+◌, ◌≡◌, refl, ◌∙◌, Bool, true, false, some, List, [], ◌∷◌, Text, text_dec, if◌then◌else◌,
  arith, ltb,
}
use zerock.Prelude.Assoc
use zerock.Prelude.Assoc.{Assoc}
use zerock.Prelude.Lists.{tally}
use zerock.Prelude.Sorting.{sort, text_lt, tally-sort}
use zerock.Client.Profiles.{keys}
use zerock.Tray.Manager.{
  State, state_stopped, state_connecting, state_up, state_reconnecting, state_failed, Status,
  is_failed, roll_up, state_of, summary_loop, summary,
}

abbrev pub is_up : State → Bool
is_up state_stopped = false
is_up state_connecting = false
is_up state_up = true
is_up state_reconnecting = false
is_up state_failed = false

abbrev pub is_trying : State → Bool
is_trying state_stopped = false
is_trying state_connecting = true
is_trying state_up = false
is_trying state_reconnecting = true
is_trying state_failed = false

-- How many statuses are in such a state.
abbrev pub count_of : (State → Bool) → Assoc Text Status → ℕ
count_of p all = tally (λ (e : Text × Status). p e.1.state) all

-- The icon and the count from the numbers of failed, trying and served tunnels.
pub rolled : ℕ → ℕ → ℕ → State × ℕ
rolled failed trying up = (
  if ltb 0 failed
      then state_failed
      else if ltb 0 trying
      then state_reconnecting
      else if ltb 0 up
      then state_up
      else state_stopped,
  up,
)

-- The numbers among the names.
abbrev among : (State → Bool) → Assoc Text Status → List Text → ℕ
among p all names = tally (λ n. p (state_of (Assoc.find text_dec all n))) names

roll_up-rolled :
    (s : State) (f t u : ℕ)
    → roll_up s (rolled f t u)
      ≡ rolled
          ((if is_failed s then 1 else 0) + f)
          ((if is_trying s then 1 else 0) + t)
          ((if is_up s then 1 else 0) + u)
unfolding roll_up rolled
roll_up-rolled state_stopped f t u = ground arith
roll_up-rolled state_connecting f t u = ground arith
roll_up-rolled state_up f t u = ground arith
roll_up-rolled state_reconnecting f t u = ground arith
roll_up-rolled state_failed f t u = ground arith

loop-rolled :
    (all : Assoc Text Status) (names : List Text) (f t u : ℕ)
    → summary_loop all names (rolled f t u)
      ≡ rolled
          (among is_failed all names + f)
          (among is_trying all names + t)
          (among is_up all names + u)
unfolding summary_loop
loop-rolled all [] f t u = unfold rolled in ground arith
loop-rolled all (name ∷ names) f t u =
    let s = state_of (Assoc.find text_dec all name) in
    rw
      (
        roll_up-rolled s f t u,
        loop-rolled all names ((if is_failed s then 1 else 0) + f)
            ((if is_trying s then 1 else 0) + t) ((if is_up s then 1 else 0) + u),
        shift (if is_failed s then 1 else 0) (among is_failed all names) f,
        shift (if is_trying s then 1 else 0) (among is_trying all names) t,
        shift (if is_up s then 1 else 0) (among is_up all names) u,
      )
      refl
  where
    shift : (x a y : ℕ) → a + (x + y) ≡ x + a + y
    shift x a y = omega arith

-- The names of a map, each read in a larger map.
among-keys :
    (p : State → Bool) (all m : Assoc Text Status)
    → Assoc.Unique text_dec m
    → ((k : Text) (st : Status)
        → Assoc.find text_dec m k ≡ some st
        → Assoc.find text_dec all k ≡ some st)
    → among p all (keys m) ≡ count_of p m
among-keys p all [] u h = refl
among-keys p all ((k, st) ∷ m) u h =
    rw
      (
        h k st (Assoc.find_head text_dec k st m),
        among-keys p all m u.1 (λ j w e. h j w (Assoc.find_tail text_dec k j st w m u.0 e)),
      )
      refl

among-sort :
    (p : State → Bool) (all : Assoc Text Status)
    → Assoc.Unique text_dec all
    → among p all (sort text_lt (keys all)) ≡ count_of p all
among-sort p all u =
    tally-sort text_lt (λ n. p (state_of (Assoc.find text_dec all n))) (keys all)
    ∙ among-keys p all all u (λ k st e. e)

-- For statuses under distinct names: `summary` counts the tunnels that are up, and its icon is that
-- of a failure if any tunnel failed, else that of reconnecting if any is connecting or reconnecting, else that
-- of a served tunnel if any is up, else that of none. So it does not depend on the names or on
-- their order.
pub summary_lem :
    (all : Assoc Text Status)
    → Assoc.Unique text_dec all
    → summary all ≡ rolled (count_of is_failed all) (count_of is_trying all) (count_of is_up all)
unfolding summary rolled
summary_lem all u =
    loop-rolled all (sort text_lt (keys all)) 0 0 0
    ∙ rw (among-sort is_failed all u, among-sort is_trying all u, among-sort is_up all u)
        (ground arith)
