-- ===== src/Server/Registry/Views.antt =====
-- internal/server/registry.go: what the listings and the search by id show.
use zerock.Prelude.{
  ℕ, ◌≡◌, refl, sym, subst, ◌∙◌, inl, inr, Bool, true, ◌&&◌, some, List, [], ◌∷◌, arith, Text,
  text_eq, text_dec, tally, tally-sort, select, text_lt, text_lt_asym, text_le_trans, sort-IsSorted,
  IsSorted, Bool-cases,
}
use zerock.Prelude.Assoc
use zerock.Prelude.Assoc.{Assoc, Unique}
use zerock.Server.Tunnel.{Tunnel}
use zerock.Server.Registry.{Registry, is_listed, first_by_id, by_id, list}
use zerock.Server.Registry.Invariant.{IsValid}

-- Filtering before counting is counting with both tests.
pub tally-select {ℓ} :
    {A : Type ℓ} (p q : A → Bool) (xs : List A) → tally p (select q xs) ≡ tally (λ x. q x && p x) xs
tally-select p q [] = refl
tally-select p q (x ∷ xs) = ground (arith, tally-select p q xs)

-- `list` returns, in the order of their subdomains, exactly the tunnels of the registry that are
-- ready and, unless the id is empty, belong to that token: any test counts as many in both.
pub list_lem :
    (ready : ℕ → Bool) (r : Registry) (token_id : Text)
    → IsSorted (λ a b. text_lt a.subdomain b.subdomain) (list ready r token_id)
      × ((p : Tunnel → Bool)
          → tally p (list ready r token_id)
            ≡ tally (λ t. is_listed ready token_id t && p t) (Assoc.values r.by_sub))
unfolding list
list_lem ready r token_id = (
  sort-IsSorted {A = Tunnel} _ (λ a b. text_lt_asym a.subdomain b.subdomain)
      (λ a b c. text_le_trans a.subdomain b.subdomain c.subdomain)
      (select (is_listed ready token_id) (Assoc.values r.by_sub)),
  λ p. tally-sort _ p _ ∙ tally-select p (is_listed ready token_id) (Assoc.values r.by_sub),
)

first_by_id_sound :
    (ready : ℕ → Bool) (id : Text) (m : Assoc Text Tunnel) (t : Tunnel)
    → Unique text_dec m
    → first_by_id ready id (Assoc.values m) ≡ some t
    → (t.id ≡ id) × (ready t.ref ≡ true) × ((k : Text) × (Assoc.find text_dec m k ≡ some t))
unfolding first_by_id Assoc.find
first_by_id_sound ready id [] t u h = cc
first_by_id_sound ready id ((k, x) ∷ m) t u h = elim (Bool-cases (text_eq x.id id && ready x.ref)) [
  | inl e ↦ (ground arith, ground arith, (k, ground arith))
  | inr e ↦
      let (named, live, (j, there)) = first_by_id_sound ready id m t u.1 (rw e at h) in
      (named, live, (j, ground (arith, u.0)))
]

-- `byID` finds nothing but a tunnel of that id that is ready and holds its subdomain.
pub by_id_sound :
    (ready : ℕ → Bool) (r : Registry) (id : Text) (t : Tunnel)
    → IsValid r
    → by_id ready r id ≡ some t
    → (t.id ≡ id) × (ready t.ref ≡ true) × (Assoc.find text_dec r.by_sub t.subdomain ≡ some t)
unfolding by_id
by_id_sound ready r id t v h =
    let (named, live, (k, there)) = first_by_id_sound ready id r.by_sub t v.unique h in
    (
      named,
      live,
      subst (λ j. Assoc.find text_dec r.by_sub j ≡ some t) (sym (v.named k t there)) there,
    )
