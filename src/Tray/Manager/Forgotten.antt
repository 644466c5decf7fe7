-- ===== src/Tray/Manager/Forgotten.antt =====
-- internal/tray/manager.go: what a forgotten tunnel may still do.
use zerock.Prelude.{
  ℕ, ◌≡◌, refl, ap, inl, inr, false, ◌==◌, some, [], ◌∷◌, Text, text_dec, arith, Bool-cases,
}
use zerock.Prelude.Assoc
use zerock.Prelude.Assoc.{Assoc, is_yes}
use zerock.Tray.Manager.{
  Run, Manager, cancel, map_values, touch, with_run, stop, delete_run, forget,
}
use zerock.Tray.Manager.Valid.{find-map_values, IsValid, found_erase, stop-IsValid}

-- A map none of whose runs has the ref is left as it is.
touch_absent :
    (k : ℕ) (f : Run → Run) (m : Assoc Text Run)
    → Assoc.Unique text_dec m
    → ((j : Text) (r : Run) → Assoc.find text_dec m j ≡ some r → (r.ref == k) ≡ false)
    → map_values (touch k f) m ≡ m
touch_absent k f [] u h = refl
touch_absent k f ((j, r) ∷ m) u h =
    rw
      (
        h j r (Assoc.find_head text_dec j r m),
        touch_absent k f m u.1 (λ i q e. h i q (Assoc.find_tail text_dec j i r q m u.0 e)),
      )
      refl

erased_untouched :
    (name : Text) (k : ℕ) (f : Run → Run) (n : Manager) (q : Run)
    → IsValid n
    → Assoc.find text_dec n.runs name ≡ some q
    → q.ref ≡ k
    → map_values (touch k f) (Assoc.erase text_dec n.runs name) ≡ Assoc.erase text_dec n.runs name
erased_untouched name k f n q v h e =
    touch_absent k f (Assoc.erase text_dec n.runs name)
      (Assoc.erase-Unique text_dec n.runs name v.unique) other
  where
    other :
        (j : Text) (r : Run)
        → Assoc.find text_dec (Assoc.erase text_dec n.runs name) j ≡ some r
        → (r.ref == k) ≡ false
    other j r g = elim (Bool-cases (r.ref == k)) [
      | inr other_ref ↦ other_ref
      | inl same ↦ absurd (
          distinct (v.apart j name r q (found_erase n.runs name j r g) h (ground (arith, same, e))))
    ]
      where
        distinct : (j ≡ name) → ⊥
        distinct s = ground (
          arith,
          ap (λ i. Assoc.find text_dec (Assoc.erase text_dec n.runs name) i) s,
          g,
          Assoc.find-erase_self text_dec n.runs name,
        )

found_stop :
    (name : Text) (m : Manager) (r : Run)
    → Assoc.find text_dec m.runs name ≡ some r
    → Assoc.find text_dec (stop name m).runs name ≡ some (touch r.ref cancel r)
unfolding with_run stop Assoc.find
found_stop name m r h = rw (stop, h, find-map_values (touch r.ref cancel) m.runs name, h) refl

-- Nothing that the agent of a forgotten tunnel reports or returns is seen any more.
pub with_run-forget :
    (name : Text) (r : Run) (f : Run → Run) (m : Manager)
    → IsValid m
    → Assoc.find text_dec m.runs name ≡ some r
    → with_run r.ref f (forget name m) ≡ forget name m
unfolding forget delete_run with_run
with_run-forget name r f m v h =
    let s = stop name m in
    ap (λ l. record s { runs = l })
      (erased_untouched name r.ref f s (touch r.ref cancel r) (stop-IsValid name m v)
        (found_stop name m r h) (ground arith))
