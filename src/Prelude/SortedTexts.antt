-- ===== src/Prelude/SortedTexts.antt =====
-- `sorted(values)` over texts, which keeps repetitions.
use mathlib.Core.List.{List, [], ◌∷◌}
use edufurthersf_be.Prelude.Tests.{if◌then◌else◌}
use edufurthersf_be.Prelude.Text.{Text, text_ltb}

insert : Text → List Text → List Text
insert a [] = a ∷ []
insert a (x ∷ xs) = let deeper = insert a xs in if text_ltb x a then x ∷ deeper else a ∷ x ∷ xs

unfoldable pub sorted_texts : List Text → List Text
unfolding insert
sorted_texts [] = []
sorted_texts (x ∷ xs) = insert x (sorted_texts xs)
