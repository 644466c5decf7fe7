-- ===== src/Tray/Manager/Steps.antt =====
-- internal/tray/manager.go: what holds of the map of runs after any operations, callbacks and returns
-- of agents, in any order.
use mathlib.Core.Option
use zerock.Prelude.{
  ℕ, ◌+◌, ◌≡◌, refl, ◌∙◌, Bool, true, false, not, ◌&&◌, ◌||◌, ◌==◌, Option, none, some, List, [],
  ◌∷◌, Text, text_eq, text_dec, arith, if◌then◌else◌,
}
use zerock.Prelude.Assoc
use zerock.Client.Profiles.{SavedTunnel}
use zerock.Client.Agent.{
  Note, on_connect, on_event, on_disconnect, SessionError, Finish, stopped, failed,
}
use zerock.Tray.Manager.{
  State, state_stopped, state_connecting, state_up, state_reconnecting, state_failed, is_active,
  is_stopped, is_failed, note_run, end_run, Status, Run, Manager, is_running, starting, touch,
  new_manager, start, cancel, with_run, stop, delete_run, stop_all, connected, heard, disconnected,
  noted, ended,
}
use zerock.Tray.Manager.Effects.{find-start, next-start, find-stop, next-stop}
use zerock.Tray.Manager.Valid.{
  find-map_values, IsValid, new_manager-IsValid, map_values-IsValid, start-IsValid,
  with_run-IsValid, stop-IsValid, delete_run-IsValid,
}

-- The runs by their names, as the menu thinks of them.
pub record Book : Type 0 where
  pub of_name : Text → Option Run
  pub next : ℕ

abbrev pub empty_book : Book
empty_book = record { of_name = λ j. none; next = 0 }

abbrev pub mark_stopped : Run → Run
mark_stopped r = record r { cancelled = true }

-- A run that has neither stopped nor failed.
abbrev pub is_live : Option Run → Bool
is_live none = false
is_live (some r) = not (is_stopped r.st.state || is_failed r.st.state)

is_active-live : (s : State) → is_active s ≡ not (is_stopped s || is_failed s)
is_active-live state_stopped = refl
is_active-live state_connecting = refl
is_active-live state_up = refl
is_active-live state_reconnecting = refl
is_active-live state_failed = refl

is_running-live : (o : Option Run) → is_running o ≡ is_live o
is_running-live none = refl
is_running-live (some r) = is_active-live r.st.state

pub record Refines (m : Manager) (b : Book) : Type 0 where
  pub same : (j : Text) → Assoc.find text_dec m.runs j ≡ b.of_name j
  pub same_next : m.next ≡ b.next

module _ (error_text : SessionError → Text) where
  noted_name : (n : Note) (st : Status) → (noted error_text n st).name ≡ st.name
  unfolding noted connected heard disconnected
  noted_name (on_connect ack again) st = refl
  noted_name (on_event ev) st = ground arith
  noted_name (on_disconnect e backoff) st = refl

  ended_name : (c : Bool) (f : Finish) (st : Status) → (ended error_text c f st).name ≡ st.name
  unfolding ended
  ended_name true f st = refl
  ended_name false stopped st = refl
  ended_name false (failed e) st = refl

  -- A call of the menu, a callback of an agent, or the return of its `Run`.
  pub data Action : Type 0 where
    starts : Text → SavedTunnel → ℕ → Action
    stops deletes : Text → Action
    stops_all : Action
    notes : ℕ → Note → Action
    ends : ℕ → Finish → Action

  pub act : Action → Manager → Manager
  act (starts name spec now) m = start name spec now m
  act (stops name) m = stop name m
  act (deletes name) m = delete_run name m
  act stops_all m = stop_all m
  act (notes ref n) m = with_run ref (note_run error_text n) m
  act (ends ref f) m = with_run ref (end_run error_text f) m

  pub act_all : List Action → Manager → Manager
  act_all [] m = m
  act_all (a ∷ actions) m = act_all actions (act a m)

  act-IsValid : (a : Action) (m : Manager) → IsValid m → IsValid (act a m)
  unfolding act
  act-IsValid (starts name spec now) m v = start-IsValid name spec now m v
  act-IsValid (stops name) m v = stop-IsValid name m v
  act-IsValid (deletes name) m v = delete_run-IsValid name m v
  act-IsValid stops_all m v = unfold stop_all in map_values-IsValid cancel m (λ r. (refl, refl)) v
  act-IsValid (notes ref e) m v =
      with_run-IsValid ref (note_run error_text e) m (λ r. (refl, noted_name e r.st)) v
  act-IsValid (ends ref f) m v =
      with_run-IsValid ref (end_run error_text f) m (λ r. (refl, ended_name r.cancelled f r.st)) v

  -- What an agent does to the run that is its own.
  abbrev pub told_of : ℕ → (Run → Run) → Book → Book
  told_of ref f b = record b {
    of_name = λ j. Option.map (λ (r : Run). if r.ref == ref then f r else r) (b.of_name j);
  }

  -- What the tray promises of each name: a run that is live is not replaced, a stop cancels the run
  -- of its own name, and what an agent does touches that agent's run.
  pub told : Action → Book → Book
  told (starts name spec now) b = record {
    of_name = λ j.
        if not (is_live (b.of_name name)) && text_eq name j
        then some (record { ref = b.next; cancelled = false; st = starting name spec now })
        else b.of_name j;
    next = if is_live (b.of_name name) then b.next else b.next + 1;
  }
  told (stops name) b = record b {
    of_name = λ j. if text_eq name j then Option.map mark_stopped (b.of_name j) else b.of_name j;
  }
  told (deletes name) b = record b { of_name = λ j. if text_eq name j then none else b.of_name j }
  told stops_all b = record b { of_name = λ j. Option.map mark_stopped (b.of_name j) }
  told (notes ref n) b = told_of ref (λ (r : Run). record r { st = noted error_text n r.st }) b
  told (ends ref f) b =
      told_of ref (λ (r : Run). record r { st = ended error_text r.cancelled f r.st }) b

  pub told_all : List Action → Book → Book
  told_all [] b = b
  told_all (a ∷ actions) b = told_all actions (told a b)

  act-Refines :
      (a : Action) (m : Manager) (b : Book) → IsValid m → Refines m b → Refines (act a m) (told a b)
  unfolding act told delete_run stop_all with_run
  act-Refines (starts name spec now) m b v h = record {
    same = λ j.
        find-start name spec now m j
        ∙ rw (h.same name, h.same j, h.same_next, is_running-live (b.of_name name)) refl;
    same_next =
        next-start name spec now m
        ∙ rw (h.same name, h.same_next, is_running-live (b.of_name name)) refl;
  }
  act-Refines (stops name) m b v h = record {
    same = λ j. find-stop name m j v ∙ rw (h.same j) refl;
    same_next = next-stop name m ∙ h.same_next;
  }
  act-Refines (deletes name) m b v h = record {
    same = λ j. Assoc.find-erase text_dec m.runs name j ∙ rw (h.same j) refl;
    same_next = h.same_next;
  }
  act-Refines stops_all m b v h = record {
    same = λ j. find-map_values cancel m.runs j ∙ rw (h.same j) refl;
    same_next = h.same_next;
  }
  act-Refines (notes ref n) m b v h = record {
    same = λ j. find-map_values (touch ref (note_run error_text n)) m.runs j ∙ rw (h.same j) refl;
    same_next = h.same_next;
  }
  act-Refines (ends ref f) m b v h = record {
    same = λ j. find-map_values (touch ref (end_run error_text f)) m.runs j ∙ rw (h.same j) refl;
    same_next = h.same_next;
  }

  act_all-Refines_from :
      (actions : List Action) (m : Manager) (b : Book)
      → IsValid m
      → Refines m b
      → IsValid (act_all actions m) × Refines (act_all actions m) (told_all actions b)
  unfolding act_all told_all
  act_all-Refines_from [] m b v h = (v, h)
  act_all-Refines_from (a ∷ actions) m b v h =
      act_all-Refines_from actions (act a m) (told a b) (act-IsValid a m v) (act-Refines a m b v h)

  -- After any steps of the calls of the menu, callbacks of agents and returns of agents, in any
  -- order, from the empty manager: the map has one run for each name, which bears that name, no two
  -- entries are the same run, and every run is older than the next one. And each name has the run
  -- that a book has which is kept by name: a start enters a new run unless the name has a live one,
  -- a stop cancels the run of its name and no other, a deletion takes out its name and no other, and
  -- what an agent reports or returns changes the status of that agent's run and of no other.
  pub act_all-Refines :
      (actions : List Action)
      → IsValid (act_all actions new_manager)
        × Refines (act_all actions new_manager) (told_all actions empty_book)
  unfolding Assoc.find
  act_all-Refines actions =
      act_all-Refines_from actions new_manager empty_book new_manager-IsValid
        (record { same = λ j. refl; same_next = refl })
