-- ===== src/Lists/Paging.antt =====
-- listQuery of internal/delivery/http/handler/list_handler.go.
use kelolakelas_academic_ser.Domain.{ℤ, pos, negsuc}
use kelolakelas_academic_ser.Prelude.{
  ltb, leb, ◌==◌, same_text, if◌then◌else◌, length, ℕ, zero, suc, ◌+◌, ◌-◌, ◌*◌, ◌≤◌, String, ◌≡◌,
  Bool, ◌&&◌, ◌||◌, Option, none, some, List, [], ◌∷◌, arith,
}
use kelolakelas_academic_ser.Schedule.Clock.{codes}

pub record ListQuery : Type 0 where
  pub page : ℕ
  pub page_size : ℕ
  pub search : String

-- The limits of internal/domain/validation.go
abbrev pub max_page : ℕ
max_page = 1000

abbrev pub max_page_size : ℕ
max_page_size = 100

abbrev pub max_search_length : ℕ
max_search_length = 255

-- strconv.Atoi: a sign, and decimal digits that fit an int64.
abbrev pub decimal_digit : ℕ → Bool
decimal_digit c = leb 48 c && leb c 57

unfoldable pub decimal : ℕ → List ℕ → Option ℕ
decimal n [] = some n
decimal n (c ∷ rest) =
    let others = decimal (10 * n + (c - 48)) rest in if decimal_digit c then others else none

abbrev pub some_digits : List ℕ → Option ℕ
some_digits [] = none
some_digits (c ∷ rest) = decimal 0 (c ∷ rest)

abbrev pub positive_int : Option ℕ → Option ℤ
positive_int none = none
positive_int (some n) = if leb n 9223372036854775807 then some (pos n) else none

abbrev pub negate : ℕ → ℤ
negate zero = pos 0
negate (suc n) = negsuc n

abbrev pub negative_int : Option ℕ → Option ℤ
negative_int none = none
negative_int (some n) = if leb n 9223372036854775808 then some (negate n) else none

unfoldable pub signed : List ℕ → Option ℤ
signed [] = none
signed (c ∷ rest) =
    if c == 45
    then negative_int (some_digits rest)
    else if c == 43
    then positive_int (some_digits rest)
    else positive_int (some_digits (c ∷ rest))

unfoldable pub atoi : String → Option ℤ
atoi text = signed (codes text)

-- One of the two numbers: left out it has its default, else it is in its range.
abbrev pub within_range : ℕ → Option ℤ → Option ℕ
within_range limit none = none
within_range limit (some (negsuc n)) = none
within_range limit (some (pos n)) = if ltb n 1 || ltb limit n then none else some n

unfoldable pub query_number : ℕ → ℕ → String → Option ℕ
query_number limit default text =
    if same_text text "" then some default else within_range limit (atoi text)

abbrev pub checked_search : Option ℕ → Option ℕ → String → Option ListQuery
checked_search none size search = none
checked_search (some page) none search = none
checked_search (some page) (some size) search =
    if ltb max_search_length (length (codes search))
    then none
    else some (record { page = page; page_size = size; search = search })

unfoldable pub list_query : String → String → String → Option ListQuery
list_query page size search =
    checked_search (query_number max_page 1 page) (query_number max_page_size 20 size) search

-- A query that is accepted asks for a page from 1 to 1000 of 1 to 100 rows, and its search has at
-- most 255 characters, whatever texts it was made of.
pub list_query-bounds :
    (page size search : String) (q : ListQuery)
    → list_query page size search ≡ some q
    → (1 ≤ q.page)
      × (q.page ≤ 1000)
      × (1 ≤ q.page_size)
      × (q.page_size ≤ 100)
      × (length (codes q.search) ≤ 255)
unfolding list_query query_number
list_query-bounds page size search q h = ground arith
