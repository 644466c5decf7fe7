-- ===== src/Tray/Manager/Effects.antt =====
-- internal/tray/manager.go: what each operation makes of the run of each name.
use mathlib.Core.Option
use zerock.Prelude.{
  ℕ, ◌+◌, ◌≡◌, refl, sym, ◌∙◌, ap, inl, inr, false, not, ◌&&◌, ◌==◌, Option, none, some, Text,
  text_eq, text_dec, if◌then◌else◌, arith, Bool-cases, Option-cases,
}
use zerock.Prelude.Assoc
use zerock.Prelude.Assoc.{is_yes}
use zerock.Client.Profiles.{SavedTunnel}
use zerock.Tray.Manager.{Run, Manager, is_running, starting, start, cancel, touch, with_run, stop}
use zerock.Tray.Manager.Valid.{find-map_values, IsValid}

abbrev new_run : Text → SavedTunnel → ℕ → ℕ → Run
new_run name spec now ref = record { ref = ref; cancelled = false; st = starting name spec now }

pub find-start :
    (name : Text) (spec : SavedTunnel) (now : ℕ) (m : Manager) (j : Text)
    → Assoc.find text_dec (start name spec now m).runs j ≡ (
        if not (is_running (Assoc.find text_dec m.runs name)) && text_eq name j
        then some (record { ref = m.next; cancelled = false; st = starting name spec now })
        else Assoc.find text_dec m.runs j)
unfolding start
find-start name spec now m j = elim (Bool-cases (is_running (Assoc.find text_dec m.runs name))) [
  | inl e ↦ rw (start, e) refl
  | inr e ↦
      rw (start, e)
        (Assoc.find-put text_dec m.runs name j (new_run name spec now m.next) ∙ ground arith)
]

pub next-start :
    (name : Text) (spec : SavedTunnel) (now : ℕ) (m : Manager)
    → (start name spec now m).next
      ≡ (if is_running (Assoc.find text_dec m.runs name) then m.next else m.next + 1)
unfolding start
next-start name spec now m = elim (Bool-cases (is_running (Assoc.find text_dec m.runs name))) [
  | inl e ↦ rw (start, e) refl
  | inr e ↦ rw (start, e) refl
]

-- The run of another name is another run.
touch_other :
    (name j : Text) (r : Run) (m : Manager) (o : Option Run)
    → IsValid m
    → Assoc.find text_dec m.runs name ≡ some r
    → Assoc.find text_dec m.runs j ≡ o
    → ¬ name ≡ j
    → Option.map (touch r.ref cancel) o ≡ o
touch_other name j r m none v h g ne = refl
touch_other name j r m (some q) v h g ne = elim (Bool-cases (q.ref == r.ref)) [
  | inr apart ↦ rw apart refl
  | inl same ↦ absurd (ne (sym (v.apart j name q r g h (ground (arith, same)))))
]

-- Cancelling the run that stands under a name, by its ref.
find-cancel :
    (name : Text) (r : Run) (m : Manager) (j : Text)
    → IsValid m
    → Assoc.find text_dec m.runs name ≡ some r
    → Option.map (touch r.ref cancel) (Assoc.find text_dec m.runs j) ≡ (
        if text_eq name j
        then Option.map cancel (Assoc.find text_dec m.runs j)
        else Assoc.find text_dec m.runs j)
find-cancel name r m j v e =
    elim (text_dec name j)
      as (λ d. Option.map (touch r.ref cancel) (Assoc.find text_dec m.runs j) ≡ (
        if is_yes d
        then Option.map cancel (Assoc.find text_dec m.runs j)
        else Assoc.find text_dec m.runs j)) [
          | yes same ↦
              let found : Assoc.find text_dec m.runs j ≡ some r =
                ap (λ k. Assoc.find text_dec m.runs k) (sym same) ∙ e in
              rw found (ground arith)
          | no other ↦ touch_other name j r m (Assoc.find text_dec m.runs j) v e refl other
        ]

pub find-stop :
    (name : Text) (m : Manager) (j : Text)
    → IsValid m
    → Assoc.find text_dec (stop name m).runs j ≡ (
        if text_eq name j
        then Option.map cancel (Assoc.find text_dec m.runs j)
        else Assoc.find text_dec m.runs j)
unfolding stop with_run
find-stop name m j v = elim (Option-cases (Assoc.find text_dec m.runs name)) [
  | inl e ↦ rw (stop, e) (unfound (text_dec name j) e)
  | inr (r, e) ↦
      rw (stop, e) (find-map_values (touch r.ref cancel) m.runs j ∙ find-cancel name r m j v e)
]
  where
    unfound :
        (d : Dec (name ≡ j))
        → Assoc.find text_dec m.runs name ≡ none
        → Assoc.find text_dec m.runs j ≡ (
            if is_yes d
            then Option.map cancel (Assoc.find text_dec m.runs j)
            else Assoc.find text_dec m.runs j)
    unfound (yes same) e =
        let absent : Assoc.find text_dec m.runs j ≡ none =
          ap (λ k. Assoc.find text_dec m.runs k) (sym same) ∙ e in
        rw absent refl
    unfound (no other) e = refl

pub next-stop : (name : Text) (m : Manager) → (stop name m).next ≡ m.next
unfolding stop with_run
next-stop name m = elim (Option-cases (Assoc.find text_dec m.runs name)) [
  | inl e ↦ rw (stop, e) refl
  | inr (r, e) ↦ rw (stop, e) refl
]
