-- ===== src/Tray/Manager/Valid.antt =====
-- internal/tray/manager.go: the map of runs stays well formed through every operation.
use zerock.Prelude.{
  ℕ, ◌+◌, ◌<◌, ◌≡◌, refl, sym, ◌∙◌, ap, ◌⊎◌, inl, inr, true, false, Option, none, some, [], ◌∷◌,
  Text, text_dec, if◌then◌else◌, arith,
}
use mathlib.Core.Option
use mathlib.Core.Option.{some-injective}
use zerock.Prelude.Assoc
use zerock.Prelude.Assoc.{Assoc, is_yes}
use zerock.Client.Profiles.{SavedTunnel}
use zerock.Tray.Manager.{
  Run, Manager, new_manager, is_running, starting, start, cancel, map_values, touch, with_run, stop,
  delete_run,
}

pub find-map_values {ℓ} :
    {V W : Type ℓ} (f : V → W) (m : Assoc Text V) (k : Text)
    → Assoc.find text_dec (map_values f m) k ≡ Option.map f (Assoc.find text_dec m k)
unfolding Assoc.find
find-map_values f [] k = refl
find-map_values f ((j, v) ∷ m) k = ground (arith, find-map_values f m k)

map_values-Unique {ℓ} :
    {V W : Type ℓ} (f : V → W) (m : Assoc Text V)
    → Assoc.Unique text_dec m
    → Assoc.Unique text_dec (map_values f m)
map_values-Unique f [] u = tt
map_values-Unique f ((j, v) ∷ m) u =
    (find-map_values f m j ∙ rw u.0 refl, map_values-Unique f m u.1)

-- Runs stand under their names, under one name each, and were made before `next`.
pub record IsValid (m : Manager) : Type 0 where
  pub unique : Assoc.Unique text_dec m.runs
  pub named : (k : Text) (r : Run) → Assoc.find text_dec m.runs k ≡ some r → r.st.name ≡ k
  pub fresh : (k : Text) (r : Run) → Assoc.find text_dec m.runs k ≡ some r → r.ref < m.next
  pub apart :
      (j k : Text) (q r : Run)
      → Assoc.find text_dec m.runs j ≡ some q
      → Assoc.find text_dec m.runs k ≡ some r
      → q.ref ≡ r.ref
      → j ≡ k

pub new_manager-IsValid : IsValid new_manager
unfolding Assoc.find
new_manager-IsValid = record {
  unique = tt;
  named = λ k r h. ground arith;
  fresh = λ k r h. ground arith;
  apart = λ j k q r g h e. ground arith;
}

-- What leaves a run its name and its ref.
abbrev pub Keeps : (Run → Run) → Type 0
Keeps f = (r : Run) → ((f r).ref ≡ r.ref) × ((f r).st.name ≡ r.st.name)

mapped_some :
    (f : Run → Run) (o : Option Run) (r : Run)
    → Option.map f o ≡ some r
    → (q : Run) × (o ≡ some q) × (r ≡ f q)
mapped_some f none r h = absurd (ground (arith, h))
mapped_some f (some q) r h = (q, refl, sym (some-injective (f q) r h))

mapped :
    (f : Run → Run) (m : Assoc Text Run) (k : Text) (r : Run)
    → Assoc.find text_dec (map_values f m) k ≡ some r
    → (q : Run) × (Assoc.find text_dec m k ≡ some q) × (r ≡ f q)
mapped f m k r h = mapped_some f (Assoc.find text_dec m k) r (sym (find-map_values f m k) ∙ h)

pub map_values-IsValid :
    (f : Run → Run) (m : Manager)
    → Keeps f
    → IsValid m
    → IsValid (record m { runs = map_values f m.runs })
map_values-IsValid f m keeps v = record {
  unique = map_values-Unique f m.runs v.unique;
  named = λ k r h.
      let (q, e, s) = mapped f m.runs k r h in
      ap (λ (x : Run). x.st.name) s ∙ (keeps q).1 ∙ v.named k q e;
  fresh = λ k r h.
      let (q, e, s) = mapped f m.runs k r h in
      omega (arith, v.fresh k q e, ap (λ (x : Run). x.ref) s, (keeps q).0);
  apart = λ j k q r g h e.
      let (a, ea, sa) = mapped f m.runs j q g in
      let (b, eb, sb) = mapped f m.runs k r h in
      v.apart j k a b ea eb (
        omega (
          arith,
          e,
          ap (λ (x : Run). x.ref) sa,
          ap (λ (x : Run). x.ref) sb,
          (keeps a).0,
          (keeps b).0,
        ));
}

pub found_erase :
    (m : Assoc Text Run) (k j : Text) (r : Run)
    → Assoc.find text_dec (Assoc.erase text_dec m k) j ≡ some r
    → Assoc.find text_dec m j ≡ some r
found_erase m k j r h = ground (arith, Assoc.find-erase text_dec m k j, h)

pub erase-IsValid :
    (k : Text) (m : Manager)
    → IsValid m
    → IsValid (record m { runs = Assoc.erase text_dec m.runs k })
erase-IsValid k m v = record {
  unique = Assoc.erase-Unique text_dec m.runs k v.unique;
  named = λ j r h. v.named j r (found_erase m.runs k j r h);
  fresh = λ j r h. v.fresh j r (found_erase m.runs k j r h);
  apart =
      λ i j q r g h e. v.apart i j q r (found_erase m.runs k i q g) (found_erase m.runs k j r h) e;
}

-- What is found after a run was put into the map.
found_put :
    (m : Assoc Text Run) (k j : Text) (new r : Run)
    → Assoc.find text_dec (Assoc.put text_dec m k new) j ≡ some r
    → ((k ≡ j) × (r ≡ new)) ⊎ (Assoc.find text_dec m j ≡ some r)
found_put m k j new r h =
    chosen (text_dec k j) (Assoc.find text_dec m j) (sym (Assoc.find-put text_dec m k j new) ∙ h)
  where
    chosen :
        (d : Dec (k ≡ j)) (o : Option Run)
        → (if is_yes d then some new else o) ≡ some r
        → ((k ≡ j) × (r ≡ new)) ⊎ (o ≡ some r)
    chosen (yes e) o g = inl (e, sym (some-injective new r g))
    chosen (no n) o g = inr g

put-IsValid :
    (k : Text) (new : Run) (m : Manager)
    → new.ref ≡ m.next
    → new.st.name ≡ k
    → IsValid m
    → IsValid (record { runs = Assoc.put text_dec m.runs k new; next = m.next + 1 })
put-IsValid k new m e n v = record {
  unique = Assoc.put-Unique text_dec m.runs k new v.unique;
  named = λ j r h. elim (found_put m.runs k j new r h) [
    | inl (kj, s) ↦ ap (λ (x : Run). x.st.name) s ∙ n ∙ kj
    | inr g ↦ v.named j r g
  ];
  fresh = λ j r h. elim (found_put m.runs k j new r h) [
    | inl (kj, s) ↦ omega (arith, e, ap (λ (x : Run). x.ref) s)
    | inr g ↦ omega (arith, v.fresh j r g)
  ];
  apart = λ i j q r g h same. elim (found_put m.runs k i new q g) [
    | inl (ki, s) ↦ elim (found_put m.runs k j new r h) [
      | inl (kj, w) ↦ sym ki ∙ kj
      | inr b ↦ absurd (omega (arith, e, same, v.fresh j r b, ap (λ (x : Run). x.ref) s))
    ]
    | inr a ↦ elim (found_put m.runs k j new r h) [
      | inl (kj, w) ↦ absurd (omega (arith, e, same, v.fresh i q a, ap (λ (x : Run). x.ref) w))
      | inr b ↦ v.apart i j q r a b same
    ]
  ];
}

pub start-IsValid :
    (name : Text) (spec : SavedTunnel) (now : ℕ) (m : Manager)
    → IsValid m
    → IsValid (start name spec now m)
unfolding start
start-IsValid name spec now m v =
    elim (is_running (Assoc.find text_dec m.runs name))
      as (λ b. IsValid (
        if b then m else record {
          runs =
              Assoc.put text_dec m.runs name
                (record { ref = m.next; cancelled = false; st = starting name spec now });
          next = m.next + 1;
        })) [
          | true ↦ v
          | false ↦
              put-IsValid name
                (record { ref = m.next; cancelled = false; st = starting name spec now }) m refl
                refl v
        ]

touch-Keeps : (k : ℕ) (f : Run → Run) → Keeps f → Keeps (touch k f)
touch-Keeps k f keeps r = ground (arith, keeps r)

pub with_run-IsValid :
    (k : ℕ) (f : Run → Run) (m : Manager) → Keeps f → IsValid m → IsValid (with_run k f m)
unfolding with_run
with_run-IsValid k f m keeps v = map_values-IsValid (touch k f) m (touch-Keeps k f keeps) v

pub stop-IsValid : (name : Text) (m : Manager) → IsValid m → IsValid (stop name m)
unfolding stop
stop-IsValid name m v =
    elim (Assoc.find text_dec m.runs name)
      as (λ o. IsValid (elim o [ none ↦ m | some r ↦ with_run r.ref cancel m ])) [
        | none ↦ v
        | some r ↦ with_run-IsValid r.ref cancel m (λ q. (refl, refl)) v
      ]

pub delete_run-IsValid : (name : Text) (m : Manager) → IsValid m → IsValid (delete_run name m)
unfolding delete_run
delete_run-IsValid name m v = erase-IsValid name m v
