-- ===== src/Prelude/Text.antt =====
-- JavaScript's text functions that the program calls, over code points.
use Prim.Native.Nat.{ℕ, ◌+◌}
use Prim.Native.Char.{code}
use Prim.Native.String.{String, [], ◌∷◌}
use mathlib.Core.Path.{◌≡◌, refl}
use mathlib.Core.Logic.{inl, inr}
use mathlib.Core.Bool.{Bool, true, false, ◌&&◌, ◌||◌}
use native.Mathlib.Omega.{arith}
use frontdesk_intake.Prelude.Tests.{leb, nat_beq, if◌then◌else◌, Bool-cases}

-- White space and line terminators of ECMAScript, as `String.prototype.trim` removes them.
unfoldable pub is_space : ℕ → Bool
is_space c =
    (leb 9 c && leb c 13)
    || nat_beq c 32
    || nat_beq c 160
    || nat_beq c 0x1680
    || (leb 0x2000 c && leb c 0x200a)
    || nat_beq c 0x2028
    || nat_beq c 0x2029
    || nat_beq c 0x202f
    || nat_beq c 0x205f
    || nat_beq c 0x3000
    || nat_beq c 0xfeff

abbrev pub is_empty : String → Bool
is_empty [] = true
is_empty (c ∷ s) = false

unfoldable pub trim_start : String → String
trim_start [] = []
trim_start (c ∷ s) = let rest = trim_start s in if is_space (code c) then rest else c ∷ s

unfoldable pub trim_end : String → String
trim_end [] = []
trim_end (c ∷ s) =
    let rest = trim_end s in if is_space (code c) && is_empty rest then [] else c ∷ rest

unfoldable pub trim : String → String
unfolding trim_start trim_end is_space
trim s = trim_end (trim_start s)

-- `length` counts UTF-16 code units.
unfoldable pub utf16_length : String → ℕ
utf16_length [] = 0
utf16_length (c ∷ s) = (if leb 0x10000 (code c) then 2 else 1) + utf16_length s

-- every character passes the test
unfoldable pub every_char : (ℕ → Bool) → String → Bool
every_char p [] = true
every_char p (c ∷ s) = p (code c) && every_char p s

-- the first character, if any, is no space
abbrev StartsPlain : String → Type 0
StartsPlain [] = Unit
StartsPlain (c ∷ s) = is_space (code c) ≡ false

trim_start-StartsPlain : (s : String) → StartsPlain (trim_start s)
unfolding trim_start
trim_start-StartsPlain [] = tt
trim_start-StartsPlain (c ∷ s) = elim (Bool-cases (is_space (code c))) [
  | inl space ↦ rw space (trim_start-StartsPlain s)
  | inr plain ↦ rw plain plain
]

trim_end-StartsPlain : (s : String) → StartsPlain s → StartsPlain (trim_end s)
unfolding trim_end
trim_end-StartsPlain [] h = tt
trim_end-StartsPlain (c ∷ s) h = rw h h

trim_start_of_StartsPlain : (s : String) → StartsPlain s → trim_start s ≡ s
unfolding trim_start
trim_start_of_StartsPlain [] h = refl
trim_start_of_StartsPlain (c ∷ s) h = rw h

trim_end-trim_end : (s : String) → trim_end (trim_end s) ≡ trim_end s
unfolding trim_end
trim_end-trim_end [] = refl
trim_end-trim_end (c ∷ s) = ground (arith, trim_end-trim_end s)

-- Trimming twice is trimming once.
pub trim-trim : (s : String) → trim (trim s) ≡ trim s
unfolding trim
trim-trim s =
    let plain = trim_end-StartsPlain (trim_start s) (trim_start-StartsPlain s) in
    rw (trim_start_of_StartsPlain (trim_end (trim_start s)) plain)
      (trim_end-trim_end (trim_start s))
