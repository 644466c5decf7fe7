-- ===== src/Store/Tokens/Scopes.antt =====
-- internal/store/store.go: `normalizeScopes`.
use zerock.Prelude.{
  ◌≡◌, ap, ◌∙◌, Bool, ◌&&◌, ◌||◌, List, [], ◌∷◌, arith, Text, text_eq, member, Distinct, IsSorted,
  to_lower, trim_space, text_lt, member-sort, sort-Distinct, sort-IsSorted, text_lt_asym,
  text_le_trans,
}
use zerock.Prelude.Sorting.{requested, member-append_one, append_one-Distinct}
use zerock.Store.Token.{scope_tunnel, scope_admin}
use zerock.Store.Tokens.{admit_scope, normalize_loop, normalize_scopes}

abbrev pub is_scope : Text → Bool
is_scope s = text_eq s scope_tunnel || text_eq s scope_admin

member-admit_scope :
    (s x : Text) (out : List Text)
    → member s (admit_scope x out) ≡ (member s out || (is_scope s && text_eq x s))
unfolding admit_scope
member-admit_scope s x out = ground (arith, member-append_one s x out)

admit_scope-Distinct : (x : Text) (out : List Text) → Distinct out → Distinct (admit_scope x out)
unfolding admit_scope
admit_scope-Distinct x out d = ground (arith, append_one-Distinct x out)

regroup : (m k e r : Bool) → ((m || (k && e)) || (k && r)) ≡ (m || (k && (e || r)))
regroup m k e r = ground arith

member-normalize_loop :
    (s : Text) (scopes out : List Text)
    → member s (normalize_loop scopes out) ≡ (member s out || (is_scope s && requested s scopes))
unfolding normalize_loop
member-normalize_loop s [] out = ground arith
member-normalize_loop s (x ∷ xs) out =
    let y = to_lower (trim_space x) in
    member-normalize_loop s xs (admit_scope y out)
    ∙ ap (λ (b : Bool). b || (is_scope s && requested s xs)) (member-admit_scope s y out)
    ∙ regroup (member s out) (is_scope s) (text_eq y s) (requested s xs)

normalize_loop-Distinct :
    (scopes out : List Text) → Distinct out → Distinct (normalize_loop scopes out)
unfolding normalize_loop
normalize_loop-Distinct [] out d = d
normalize_loop-Distinct (x ∷ xs) out d =
    normalize_loop-Distinct xs _ (admit_scope-Distinct (to_lower (trim_space x)) out d)

-- The normal form holds exactly the known scopes that were asked for, up to case and surrounding
-- space, each once and in order.
pub normalize_scopes_lem :
    (scopes : List Text)
    → ((s : Text) → member s (normalize_scopes scopes) ≡ (is_scope s && requested s scopes))
      × Distinct (normalize_scopes scopes)
      × IsSorted text_lt (normalize_scopes scopes)
unfolding normalize_scopes
normalize_scopes_lem scopes = (
  λ s. member-sort text_lt s (normalize_loop scopes []) ∙ member-normalize_loop s scopes [],
  sort-Distinct text_lt _ (normalize_loop-Distinct scopes [] tt),
  sort-IsSorted text_lt text_lt_asym text_le_trans (normalize_loop scopes []),
)
