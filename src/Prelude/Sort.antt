-- ===== src/Prelude/Sort.antt =====
-- `.sort()` of an array of texts, and the array without repetitions.
use Prim.Native.Char.{code}
use Prim.Native.String.{String, [] as end, ◌∷◌ as char}
use mathlib.Core.Bool.{Bool, true, false}
use mathlib.Core.List.{List, [], ◌∷◌}
use text.Mathlib.Text.{◌==◌}
use frontdesk_intake.Prelude.Tests.{leb, nat_beq, if◌then◌else◌}
use frontdesk_intake.Prelude.Lists.{any}

-- the order of texts by their characters
abbrev text_le : String → String → Bool
text_le end t = true
text_le (char c s) end = false
text_le (char c s) (char d t) =
    let rest = text_le s t in if nat_beq (code c) (code d) then rest else leb (code c) (code d)

abbrev insert_text : String → List String → List String
insert_text x [] = x ∷ []
insert_text x (y ∷ ys) = let rest = insert_text x ys in if text_le x y then x ∷ y ∷ ys else y ∷ rest

unfoldable pub sort_texts : List String → List String
sort_texts [] = []
sort_texts (x ∷ xs) = insert_text x (sort_texts xs)

-- `Array.from(new Set(texts))`: each text where it stands first, after the `seen` ones
unfoldable pub without_repeats : List String → List String → List String
without_repeats seen [] = []
without_repeats seen (x ∷ xs) =
    let new = without_repeats (x ∷ seen) xs in
    let old = without_repeats seen xs in if any (λ y. y == x) seen then old else x ∷ new
