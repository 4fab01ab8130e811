-- ===== src/SessionAccess/Shell.antt =====
-- Quoting in the POSIX shell, for words of plain characters and quoted parts: an independent
-- reading of the commands that src/session-access.ts writes. A character that the shell would
-- treat specially makes a text no list of words.
use workflowd.Base.{
  ℕ, Bool, true, false, ◌&&◌, ◌||◌, Option, none, some, List, [], ◌∷◌, ◌++◌, if◌then◌else◌, leb,
  ◌==◌, Text,
}

pub data Class : Type 0 where
  quote double_quote space plain special : Class

-- Letters, digits, `-` and `_` are plain.
abbrev is_plain : ℕ → Bool
is_plain c =
    (leb 97 c && leb c 122)
    || (leb 65 c && leb c 90)
    || (leb 48 c && leb c 57)
    || c == 45
    || c == 95

abbrev pub class_of : ℕ → Class
class_of c =
    if c == 39
    then quote
    else (if c == 34
        then double_quote
        else (if c == 32 then space else (if is_plain c then plain else special)))

-- Characters that keep a meaning between double quotes: `$`, the backquote, `\` and `!`.
abbrev pub is_live : ℕ → Bool
is_live c = c == 36 || c == 96 || c == 92 || c == 33

-- Where the reader is, with the word that it has begun.
pub data Mode : Type 0 where
  bare : Option Text → Mode
  single double : Text → Mode

abbrev begun : Option Text → Text
begun none = []
begun (some word) = word

abbrev pub prepend : Option Text → Option (List Text) → Option (List Text)
prepend none words = words
prepend (some word) none = none
prepend (some word) (some words) = some (word ∷ words)

-- The words of a text; `none` where a quote is open at its end or a character is special.
unfoldable pub words : Mode → Text → Option (List Text)
words (bare word) [] = prepend word (some [])
words (single word) [] = none
words (double word) [] = none
words (bare word) (c ∷ t) = elim (class_of c) [
  | quote ↦ words (single (begun word)) t
  | double_quote ↦ words (double (begun word)) t
  | space ↦ prepend word (words (bare none) t)
  | plain ↦ words (bare (some (begun word ++ (c ∷ [])))) t
  | special ↦ none
]
words (single word) (c ∷ t) = elim (c == 39) [
  | true ↦ words (bare (some word)) t
  | false ↦ words (single (word ++ (c ∷ []))) t
]
words (double word) (c ∷ t) = elim (c == 34) [
  | true ↦ words (bare (some word)) t
  | false ↦ elim (is_live c) [ true ↦ none | false ↦ words (double (word ++ (c ∷ []))) t ]
]
