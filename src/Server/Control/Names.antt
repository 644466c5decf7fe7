-- ===== src/Server/Control/Names.antt =====
-- internal/server/control.go: the names that `resolveSubdomain` gives out.
use zerock.Prelude.{
  ℕ, zero, suc, ◌+◌, ◌<◌, ◌≡◌, refl, sym, ap, inl, inr, Bool, true, false, not, arith, Text, length,
  is_empty, Bool-cases, Option-cases, subst,
}
use zerock.Bolt.{Bolt}
use zerock.Namegen.{Picks, new_name, valid_subdomain, adjectives, nouns}
use zerock.Namegen.Valid.{new_name-valid}
use zerock.Store.Token.{Token}
use zerock.Store.Db.{Db}
use zerock.Store.Reservations.{clean, reservation}
use zerock.Server.Config.{Config, is_reserved}
use zerock.Server.Registry.{Registry, lookup}
use zerock.Server.Control.{
  Hello, Code, Step, go, refused, ◌>>=◌, ◌>>◌, refuse_if, Arrival, is_usable, random_name,
  is_foreign, is_live, requested_name, resolve_subdomain, sub_invalid, sub_blocked, sub_reserved,
  sub_taken,
}

step_value {ℓ} : {A : Type ℓ} → A → Step A → A
step_value d (go a) = a
step_value d (refused c es) = d

pub go-injective {ℓ} : {A : Type ℓ} (a b : A) → go a ≡ go b → a ≡ b
unfolding step_value
go-injective a b h = ap (step_value a) h

-- A step that went on, and the rest of the chain.
pub >>=-eq-go {ℓ κ} :
    {A : Type ℓ} {B : Type κ} (m : Step A) (f : A → Step B) (b : B)
    → (m >>= f) ≡ go b
    → (a : A) × (m ≡ go a) × (f a ≡ go b)
>>=-eq-go (go a) f b h = (a, refl, h)
>>=-eq-go (refused c es) f b h = cc

-- A test that did not refuse.
pub refuse_if-eq-go {ℓ} :
    {B : Type ℓ} (t : Bool) (c : Code) (k : Step B) (b : B)
    → (refuse_if t c >> k) ≡ go b
    → (t ≡ false) × (k ≡ go b)
refuse_if-eq-go true c k b h = cc
refuse_if-eq-go false c k b h = (refl, h)

-- The ranges in which `pick` draws.
pub record InRange (p : Picks) : Type 0 where
  pub h0 : p.h0 < 16
  pub h1 : p.h1 < 16
  pub h2 : p.h2 < 16
  pub adjective : p.adjective < length adjectives
  pub noun : p.noun < length nouns

random_name_sound :
    (rounds : ℕ) (draws : ℕ → Picks) (i : ℕ) (usable : Text → Bool) (name : Text)
    → ((j : ℕ) → InRange (draws j))
    → random_name rounds draws i usable ≡ go name
    → (usable name ≡ true) × (valid_subdomain name ≡ true)
unfolding random_name
random_name_sound zero draws i usable name ranges h = cc
random_name_sound (suc n) draws i usable name ranges h =
    elim (Bool-cases (usable (new_name (draws i)))) [
      | inl e ↦
          let same = go-injective (new_name (draws i)) name (rw e at h) in
          let v = ranges i in
          (
            subst (λ t. usable t ≡ true) same e,
            subst (λ t. valid_subdomain t ≡ true) same
                (new_name-valid (draws i) v.h0 v.h1 v.h2 v.adjective v.noun),
          )
      | inr e ↦ random_name_sound n draws (i + 1) usable name ranges (rw e at h)
    ]

module _ (bolt : Bolt) (cfg : Config) (ready : ℕ → Bool) (reg : Registry) (db : Db bolt)
    (tok : Token) where
  -- A name that the token may have: a valid label, kept back by nobody else, with no live tunnel.
  pub record IsGrantable (name : Text) : Type 0 where
    pub valid : valid_subdomain name ≡ true
    pub allowed : is_reserved cfg name ≡ false
    pub owned : is_foreign tok.id (reservation bolt db name) ≡ false
    pub idle : is_live (lookup ready reg name) ≡ false

  is_usable_sound :
      (name : Text)
      → is_usable bolt cfg ready reg db name ≡ true
      → valid_subdomain name ≡ true
      → IsGrantable name
  unfolding is_usable
  is_usable_sound name h valid = elim (Bool-cases (is_reserved cfg name)) [
    | inl e ↦ absurd (let bad : false ≡ true = rw e at h in cc)
    | inr e ↦ elim (Option-cases (lookup ready reg name)) [
      | inr (t, f) ↦ absurd (let bad : false ≡ true = rw (e, f) at h in cc)
      | inl f ↦ elim (Option-cases (reservation bolt db name)) [
        | inr (r, k) ↦ absurd (let bad : false ≡ true = rw (e, f, k) at h in cc)
        | inl k ↦ record { valid = valid; allowed = e; owned = rw k; idle = rw f }
      ]
    ]
  ]

  requested_name_sound :
      (name given : Text)
      → requested_name bolt cfg ready reg db tok name ≡ go given
      → (name ≡ given) × IsGrantable given
  unfolding requested_name
  requested_name_sound name given h =
      let (valid, h1) = refuse_if-eq-go (not (valid_subdomain name)) sub_invalid _ given h in
      let (allowed, h2) = refuse_if-eq-go (is_reserved cfg name) sub_blocked _ given h1 in
      let (owned, h3) =
        refuse_if-eq-go (is_foreign tok.id (reservation bolt db name)) sub_reserved _ given h2 in
      let (idle, h4) = refuse_if-eq-go (is_live (lookup ready reg name)) sub_taken _ given h3 in
      let same = go-injective name given h4 in
      (
        same,
        subst IsGrantable same
            (record { valid = ground arith; allowed = allowed; owned = owned; idle = idle }),
      )

  -- The name that a tunnel gets may be had by its token, and is the requested one, lowercased and
  -- trimmed, if one was requested.
  pub resolve_subdomain_sound :
      (arrival : Arrival) (hello : Hello) (name : Text)
      → ((j : ℕ) → InRange (arrival.draws j))
      → resolve_subdomain bolt cfg ready reg db arrival hello tok ≡ go name
      → IsGrantable name × (is_empty (clean hello.subdomain) ≡ false → name ≡ clean hello.subdomain)
  unfolding resolve_subdomain
  resolve_subdomain_sound arrival hello name ranges h =
      elim (Bool-cases (is_empty (clean hello.subdomain))) [
        | inl e ↦
            let (usable, valid) =
              random_name_sound 12 arrival.draws 0 (is_usable bolt cfg ready reg db) name ranges
                (rw e at h) in
            (is_usable_sound name usable valid, λ asked. cc)
        | inr e ↦
            let (same, grantable) = requested_name_sound (clean hello.subdomain) name (rw e at h) in
            (grantable, λ asked. sym same)
      ]
