-- ===== src/Worker/CacheSummary/Versions.antt =====
-- Which version labels may be shown.
use app_health.Prelude.{
  ℕ, zero, suc, Bool, true, false, ◌&&◌, ◌||◌, List, [], ◌∷◌, leb, ◌==◌, if◌then◌else◌, length, all,
  map,
}
use app_health.Js.Strings.{Text, codes, same_text, is_digit, is_upper, is_lower, is_hex, split}

-- How many digits the text starts with, and what follows them.
unfoldable pub digit_run : Text → ℕ × Text
digit_run [] = (0, [])
digit_run (c ∷ cs) =
    let (n, rest) = digit_run cs in if is_digit c then (suc n, rest) else (0, c ∷ cs)

-- `[-.][a-z0-9.-]{1,64}` or nothing, with the flag `i`
abbrev pub is_suffix : Text → Bool
is_suffix [] = true
is_suffix (c ∷ cs) =
    (c == b'-' || c == b'.')
    && leb 1 (length cs)
    && leb (length cs) 64
    && all (λ d. is_lower d || is_upper d || is_digit d || d == b'.' || d == b'-') cs

-- `\d{1,8}\.` so many times, then `\d{1,8}` and the suffix
unfoldable pub is_numbered : ℕ → Text → Bool
unfolding digit_run
is_numbered zero s = let (n, rest) = digit_run s in leb 1 n && leb n 8 && is_suffix rest
is_numbered (suc dots) s =
    let (n, rest) = digit_run s in
    elim rest [ [] ↦ false | c ∷ cs ↦ leb 1 n && leb n 8 && c == b'.' && is_numbered dots cs ]

abbrev pub strip_v : Text → Text
strip_v [] = []
strip_v (c ∷ cs) = if c == b'v' || c == b'V' then cs else c ∷ cs

abbrev pub same_lengths : List ℕ → List ℕ → Bool
same_lengths [] [] = true
same_lengths (a ∷ as') (b ∷ bs) = a == b && same_lengths as' bs
same_lengths _ _ = false

abbrev pub is_hyphenated : List Text → Bool
is_hyphenated parts =
    same_lengths (map length parts) (8 ∷ 4 ∷ 4 ∷ 4 ∷ 12 ∷ []) && all (all is_hex) parts

-- `VERSION`
unfoldable pub is_version : Text → Bool
unfolding is_numbered
is_version s =
    ((length s == 40 || length s == 64) && all is_hex s)
    || is_hyphenated (split b'-' s)
    || is_numbered 2 (strip_v s)

-- `/^[A-Za-z0-9._-]{1,128}$/`
abbrev pub is_build : Text → Bool
is_build s =
    leb 1 (length s)
    && leb (length s) 128
    && all (λ c. is_lower c || is_upper c || is_digit c || c == b'.' || c == b'_' || c == b'-') s

unfoldable pub public_version : Text → Text → Text
unfolding is_version
public_version value source =
    if same_text source (codes "unknown")
    then codes "unknown"
    else if same_text source (codes "cache_build")
    then (if is_build value then value else codes "other")
    else if is_version value
    then value
    else codes "other"
