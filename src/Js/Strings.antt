-- ===== src/Js/Strings.antt =====
-- JavaScript strings, as lists of UTF-16 code units.
pub mod Equality
pub mod Splitting
pub mod Sorting
use Prim.Native.String.{String}
use Prim.Native.Char.{code}
use app_health.Prelude.{
  ℕ, ◌≡◌, refl, Bool, true, false, not, ◌&&◌, ◌||◌, List, [], ◌∷◌, ◌++◌, arith, leb, ◌==◌, all,
  if◌then◌else◌,
}

abbrev pub Text : Type 0
Text = List ℕ

-- The code units of a text literal in ASCII.
abbrev pub codes : String → Text
codes String.[] = []
codes (String.◌∷◌ c s) = code c ∷ codes s

abbrev pub is_digit : ℕ → Bool
is_digit c = leb b'0' c && leb c b'9'

abbrev pub is_upper : ℕ → Bool
is_upper c = leb b'A' c && leb c b'Z'

abbrev pub is_lower : ℕ → Bool
is_lower c = leb b'a' c && leb c b'z'

-- `[0-9a-f]` with the flag `i`
abbrev pub is_hex : ℕ → Bool
is_hex c = is_digit c || (leb b'a' c && leb c b'f') || (leb b'A' c && leb c b'F')

-- The white space and line terminators that `trim` removes.
unfoldable pub is_space : ℕ → Bool
is_space c =
    (leb 9 c && leb c 13)
    || c == 32
    || c == 160
    || c == 0x1680
    || (leb 0x2000 c && leb c 0x200a)
    || c == 0x2028
    || c == 0x2029
    || c == 0x202f
    || c == 0x205f
    || c == 0x3000
    || c == 0xfeff

unfoldable pub trim_start : Text → Text
unfolding is_space
trim_start [] = []
trim_start (c ∷ cs) = elim (is_space c) [ true ↦ trim_start cs | false ↦ c ∷ cs ]

unfoldable pub trim_end : Text → Text
unfolding is_space
trim_end [] = []
trim_end (c ∷ cs) = elim (trim_end cs) [
  | [] ↦ if is_space c then [] else c ∷ []
  | d ∷ ds ↦ c ∷ d ∷ ds
]

-- `trim`
unfoldable pub trim : Text → Text
unfolding trim_start trim_end
trim s = trim_end (trim_start s)

-- `s.slice(0, s.indexOf(mark))` where the mark occurs, and `s` where it does not.
unfoldable pub before_mark : ℕ → Text → Text
before_mark mark [] = []
before_mark mark (c ∷ cs) = let rest = c ∷ before_mark mark cs in if c == mark then [] else rest

-- `s.split(mark)`
unfoldable pub split : ℕ → Text → List Text
split mark [] = [] ∷ []
split mark (c ∷ cs) =
    let parts = split mark cs in
    if c == mark
    then [] ∷ parts
    else elim parts [ [] ↦ (c ∷ []) ∷ [] | part ∷ rest ↦ (c ∷ part) ∷ rest ]

-- `parts.join(mark)`
unfoldable pub join : ℕ → List Text → Text
join mark [] = []
join mark (part ∷ parts) = elim parts [ [] ↦ part | next ∷ rest ↦ part ++ mark ∷ join mark parts ]

-- `a === b`
abbrev pub same_text : Text → Text → Bool
same_text [] [] = true
same_text (a ∷ as') (b ∷ bs) = (a == b) && same_text as' bs
same_text _ _ = false

-- `s.startsWith(prefix)`, the prefix first
abbrev pub starts_with : Text → Text → Bool
starts_with [] s = true
starts_with (a ∷ prefix) [] = false
starts_with (a ∷ prefix) (b ∷ s) = (a == b) && starts_with prefix s
