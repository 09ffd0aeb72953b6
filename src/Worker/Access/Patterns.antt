-- ===== src/Worker/Access/Patterns.antt =====
-- apps/worker/src/access-policy.ts: the regular expressions on paths.
use app_health.Prelude.{
  ℕ, Bool, true, false, not, ◌&&◌, ◌||◌, List, [], ◌∷◌, ◌==◌, length, all, any,
}
use app_health.Js.Strings.{Text, codes, same_text, split, is_digit}

-- A part of a path's pattern: a word, one of several, `[a-f0-9-]{36}` or `[^/]+`.
pub data Part : Type 0 where
  word : Text → Part
  one_of : List Text → Part
  id36 : Part
  some_text : Part

abbrev pub is_id_unit : ℕ → Bool
is_id_unit c = is_digit c || c == b'-' || any (λ d. c == d) (codes "abcdef")

unfoldable pub fits_part : Part → Text → Bool
fits_part (word w) s = same_text s w
fits_part (one_of ws) s = any (same_text s) ws
fits_part id36 s = length s == 36 && all is_id_unit s
fits_part some_text s = not (length s == 0)

unfoldable pub fits : List Part → List Text → Bool
unfolding fits_part
fits [] [] = true
fits (p ∷ ps) (s ∷ ss) = fits_part p s && fits ps ss
fits _ _ = false

-- A path against a pattern; before the first slash there is nothing.
unfoldable pub path_fits : List Part → Text → Bool
unfolding fits
path_fits parts path = fits (word [] ∷ word (codes "v1") ∷ parts) (split b'/' path)
