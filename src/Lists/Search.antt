-- ===== src/Lists/Search.antt =====
-- escapeLikePattern of internal/repository/search.go, and what PostgreSQL reads in its result.
use kelolakelas_academic_ser.Prelude.{
  ◌==◌, if◌then◌else◌, ◌≡◌, refl, Bool, true, false, ◌||◌, Option, none, some, arith,
}
use Prim.Native.Char.{Char, code}
use Prim.Native.String.{String as Text}

-- `\`, `%` and `_`
abbrev pub special : Char → Bool
special c = code c == 92 || code c == 37 || code c == 95

unfoldable pub escape_like_pattern : Text → Text
escape_like_pattern Text.[] = Text.[]
escape_like_pattern (Text.◌∷◌ c text) =
    let rest = escape_like_pattern text in
    if special c then Text.◌∷◌ "\\" (Text.◌∷◌ c rest) else Text.◌∷◌ c rest

-- A pattern of LIKE ... ESCAPE '\' that has no wildcard matches one text, which this is. A pattern
-- with a wildcard or a single backslash at its end has none.
abbrev pub and_char : Char → Option Text → Option Text
and_char c none = none
and_char c (some text) = some (Text.◌∷◌ c text)

-- `%` and `_`, the wildcards of LIKE
abbrev pub wildcard : Char → Bool
wildcard c = code c == 37 || code c == 95

unfoldable pub literal : Bool → Text → Option Text
literal escaped Text.[] = if escaped then none else some Text.[]
literal escaped (Text.◌∷◌ c text) =
    let plain = literal false text in
    let quoted = literal true text in
    if escaped
    then and_char c plain
    else if code c == 92
    then quoted
    else if wildcard c
    then none
    else and_char c plain

-- The escaped search of a user has no wildcard, and as a pattern it matches exactly the text that
-- was searched for: the round trip through the escapes.
pub literal-escape_like_pattern :
    (text : Text) → literal false (escape_like_pattern text) ≡ some text
unfolding literal escape_like_pattern
literal-escape_like_pattern Text.[] = refl
literal-escape_like_pattern (Text.◌∷◌ c text) = ground (arith, literal-escape_like_pattern text)
