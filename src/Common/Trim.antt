-- ===== src/Common/Trim.antt =====
-- `str::trim`, `str::trim_matches` and the tests on characters of the standard library.
use Prim.Native.Char.{Char, code}
use Prim.Native.String.{String}
use mathlib.Core.Bool.{Bool, true, false, ◌&&◌, ◌||◌}
use research_agent_system.Common.Tests.{if◌then◌else◌, leb, ◌==◌, nat_eq}

abbrev pub is_empty_text : String → Bool
is_empty_text String.[] = true
is_empty_text (String.◌∷◌ c s) = false

-- `char::is_whitespace`: the code points with the property White_Space
unfoldable pub is_whitespace : Char → Bool
is_whitespace c =
    let n = code c in
    leb 9 n && leb n 13
    || n == 32
    || n == 0x85
    || n == 0xa0
    || n == 0x1680
    || leb 0x2000 n && leb n 0x200a
    || n == 0x2028
    || n == 0x2029
    || n == 0x202f
    || n == 0x205f
    || n == 0x3000

-- `char::is_ascii_whitespace`, which leaves out the vertical tab
unfoldable pub is_ascii_whitespace : Char → Bool
is_ascii_whitespace c = let n = code c in n == 9 || n == 10 || n == 12 || n == 13 || n == 32

unfoldable pub trim_start_matches : (Char → Bool) → String → String
trim_start_matches p String.[] = String.[]
trim_start_matches p (String.◌∷◌ c s) = elim (p c) [
  | true ↦ trim_start_matches p s
  | false ↦ String.◌∷◌ c s
]

unfoldable pub trim_end_matches : (Char → Bool) → String → String
trim_end_matches p String.[] = String.[]
trim_end_matches p (String.◌∷◌ c s) =
    let rest = trim_end_matches p s in
    if is_empty_text rest && p c then String.[] else String.◌∷◌ c rest

unfoldable pub trim_matches : (Char → Bool) → String → String
trim_matches p s = trim_end_matches p (trim_start_matches p s)

-- `str::trim`
unfoldable pub trim : String → String
trim = trim_matches is_whitespace
