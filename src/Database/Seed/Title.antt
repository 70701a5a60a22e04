-- ===== src/Database/Seed/Title.antt =====
-- The title of a document in db/src/seed.ts: the match of /^#\s+(.+)$/m in a text.
use frontdesk_intake.Prelude.{
  ℕ, ◌≡◌, refl, String, Bool, true, false, ◌&&◌, ◌||◌, not, Option, none, some, is_space, nat_beq,
  if◌then◌else◌,
}
use Prim.Native.Char.{code}
use Prim.Native.String.{[], ◌∷◌}

-- LineTerminator of ECMAScript, at which `.` stops and after which `^` matches
unfoldable pub is_terminator : ℕ → Bool
is_terminator c = nat_beq c 10 || nat_beq c 13 || nat_beq c 0x2028 || nat_beq c 0x2029

-- `.+` from here, up to the end of the line
unfoldable pub line : String → String
unfolding is_terminator
line [] = []
line (c ∷ s) = let rest = line s in if is_terminator (code c) then [] else c ∷ rest

abbrev otherwise {ℓ} : {A : Type ℓ} → Option A → Option A → Option A
otherwise (some a) b = some a
otherwise none b = b

-- `\s+(.+)$` after the `#`, `spaced` once a space was read: the longest run of spaces that leaves a
-- character of the same line to capture.
unfoldable pub heading : Bool → String → Option String
unfolding is_space is_terminator line
heading spaced [] = none
heading spaced (c ∷ s) =
    let longer = heading true s in
    let here = if spaced && not (is_terminator (code c)) then some (line (c ∷ s)) else none in
    if is_space (code c) then otherwise longer here else here

abbrev after_hash : String → Option String
unfolding heading
after_hash [] = none
after_hash (c ∷ s) = if nat_beq (code c) 35 then heading false s else none

-- the lines of the text, from the first; `start` at the start of one
unfoldable pub title_from : Bool → String → Option String
unfolding after_hash is_terminator
title_from start [] = none
title_from start (c ∷ s) =
    let later = title_from (is_terminator (code c)) s in
    if start then otherwise (after_hash (c ∷ s)) later else later

-- the first heading, or the file's name
unfoldable pub title_of : String → String → String
unfolding title_from
title_of filename content = elim (title_from true content) [ some title ↦ title | none ↦ filename ]

title_of_heading : title_of "a.md" "text\n#none\n# Front desk\nmore" ≡ "Front desk"
unfolding title_of title_from
title_of_heading = refl

title_of_none : title_of "a.md" "#\nno #title" ≡ "no #title"
unfolding title_of title_from
title_of_none = refl
