-- ===== src/Text.antt =====
-- Python's text methods that the services use. White space is that of `str.isspace`, case that of ASCII.
use Prim.Native.Char.{Char, code}
use procore_intake_bridge.Base.{
  ℕ, zero, suc, ◌+◌, String, Bool, true, false, ◌&&◌, ◌||◌, leb, ◌==◌, if◌then◌else◌, str_eq,
}

unfoldable pub first_characters : ℕ → String → String
first_characters zero s = String.[]
first_characters (suc n) String.[] = String.[]
first_characters (suc n) (String.◌∷◌ c s) = String.◌∷◌ c (first_characters n s)

unfoldable pub drop_characters : ℕ → String → String
drop_characters zero s = s
drop_characters (suc n) String.[] = String.[]
drop_characters (suc n) (String.◌∷◌ c s) = drop_characters n s

unfoldable pub text_length : String → ℕ
text_length String.[] = 0
text_length (String.◌∷◌ c s) = suc (text_length s)

unfoldable pub append : String → String → String
append String.[] t = t
append (String.◌∷◌ c s) t = String.◌∷◌ c (append s t)

-- The white space of `str.isspace` past Latin-1, by the code point, and all of it.
unfoldable pub is_wide_space : ℕ → Bool
is_wide_space c =
    c == 5760
    || ((leb 8192 c && leb c 8202)
        || (c == 8232 || (c == 8233 || (c == 8239 || (c == 8287 || c == 12288)))))

unfoldable pub is_space : Char → Bool
unfolding is_wide_space
is_space ch =
    let c = code ch in
    (leb 9 c && leb c 13) || ((leb 28 c && leb c 32) || (c == 133 || (c == 160 || is_wide_space c)))

unfoldable pub strip_start : String → String
unfolding is_space
strip_start String.[] = String.[]
strip_start (String.◌∷◌ c s) = if is_space c then strip_start s else String.◌∷◌ c s

unfoldable pub strip_end : String → String
unfolding is_space
strip_end String.[] = String.[]
strip_end (String.◌∷◌ c s) =
    let rest = strip_end s in if is_space c && str_eq rest "" then String.[] else String.◌∷◌ c rest

-- `text.strip()`.
unfoldable pub strip : String → String
unfolding strip_start strip_end
strip text = strip_end (strip_start text)

-- `" ".join(text.split())`, from the end of the text.
unfoldable pub join_words : String → String
unfolding is_space append
join_words String.[] = String.[]
join_words (String.◌∷◌ c s) =
    let rest = join_words s in
    if is_space c
    then (if str_eq (strip_start rest) "" then String.[] else append " " (strip_start rest))
    else String.◌∷◌ c rest

-- The code of a letter of ASCII in lower case.
unfoldable pub fold_code : ℕ → ℕ
fold_code c = if leb b'A' c && leb c b'Z' then c + 32 else c

-- `text.casefold() == key`, for a key of lower case.
unfoldable pub folds_to : String → String → Bool
unfolding fold_code
folds_to String.[] String.[] = true
folds_to (String.◌∷◌ c s) (String.◌∷◌ d key) = fold_code (code c) == code d && folds_to s key
folds_to _ _ = false

-- `text.casefold() == other.casefold()`, and `marker in text.casefold()` for a marker of lower case.
unfoldable pub same_folded : String → String → Bool
same_folded String.[] String.[] = true
same_folded (String.◌∷◌ c s) (String.◌∷◌ d t) =
    fold_code (code c) == fold_code (code d) && same_folded s t
same_folded _ _ = false

unfoldable pub starts_folded : String → String → Bool
starts_folded String.[] s = true
starts_folded (String.◌∷◌ m marker) String.[] = false
starts_folded (String.◌∷◌ m marker) (String.◌∷◌ c s) =
    fold_code (code c) == code m && starts_folded marker s

unfoldable pub contains_folded : String → String → Bool
unfolding starts_folded
contains_folded marker String.[] = starts_folded marker String.[]
contains_folded marker (String.◌∷◌ c s) =
    starts_folded marker (String.◌∷◌ c s) || contains_folded marker s
