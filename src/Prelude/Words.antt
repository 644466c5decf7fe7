-- ===== src/Prelude/Words.antt =====
-- Words with white space between them: `strings.Fields`, and `strings.Join` with a space.
use mathlib.Core.Path.{◌≡◌, refl, ◌∙◌, ap}
use mathlib.Core.Bool.{Bool, true, false, not}
use mathlib.Core.List.{List, [], ◌∷◌, ◌++◌, append_assoc, append-nil}
use native.Mathlib.Omega.{arith}
use zerock.Prelude.Tests.{if◌then◌else◌}
use zerock.Prelude.Lists.{all, All, is_empty}
use zerock.Prelude.Strings.{Text, is_space}
use zerock.Prelude.Strings.Laws.{glue}

abbrev pub finished : Text → List Text → List Text
finished word rest = if is_empty word then rest else word ∷ rest

-- `word` is the word that is being read.
unfoldable pub fields_loop : Text → Text → List Text
fields_loop word [] = finished word []
fields_loop word (c ∷ s) =
    let ends = fields_loop [] s in
    let goes_on = fields_loop (word ++ c ∷ []) s in
    if is_space c then finished word ends else goes_on

unfoldable pub fields : Text → List Text
unfolding fields_loop
fields s = fields_loop [] s

-- The words with one space between them.
unfoldable pub join_words : List Text → Text
unfolding glue
join_words ws = glue b' ' ws

abbrev pub has_no_space : Text → Bool
has_no_space s = all (λ c. not (is_space c)) s

abbrev pub IsWord : Text → Type 0
IsWord w = (is_empty w ≡ false) × (has_no_space w ≡ true)

loop_first :
    (acc w rest : Text)
    → has_no_space w ≡ true
    → fields_loop acc (w ++ (b' ' ∷ rest)) ≡ finished (acc ++ w) (fields_loop [] rest)
unfolding fields_loop
loop_first acc [] rest h = rw (append-nil acc) refl
loop_first acc (c ∷ w) rest h =
    ground (arith, loop_first (acc ++ c ∷ []) w rest, append_assoc acc (c ∷ []) w)

loop_last : (acc w : Text) → has_no_space w ≡ true → fields_loop acc w ≡ finished (acc ++ w) []
unfolding fields_loop
loop_last acc [] h = rw (append-nil acc) refl
loop_last acc (c ∷ w) h = ground (arith, loop_last (acc ++ c ∷ []) w, append_assoc acc (c ∷ []) w)

-- Words that are joined are found again.
pub fields-join_words : (ws : List Text) → All IsWord ws → fields (join_words ws) ≡ ws
unfolding fields join_words glue
fields-join_words [] h = unfold fields_loop in refl
fields-join_words (p ∷ []) (h, hs) = loop_last [] p h.1 ∙ rw h.0 refl
fields-join_words (p ∷ q ∷ ps) (h, hs) =
    loop_first [] p (join_words (q ∷ ps)) h.1
    ∙ rw h.0 (ap (λ l. p ∷ l) (fields-join_words (q ∷ ps) hs))
