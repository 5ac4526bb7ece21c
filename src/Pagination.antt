-- ===== src/Pagination.antt =====
-- Pages of a list endpoint: src/shared/utils/pagination.util.ts, src/shared/dto/pagination.dto.ts.
-- The query builder is a parameter `run`: given the ORDER BY clauses, LIMIT and OFFSET, it returns
-- the rows and the total count (`getManyAndCount`).
pub mod Bounds
pub mod Windows
pub mod Sorting
mod Tests
use gov_jobs_backend.Base.{
  ℕ, ◌+◌, ◌-◌, ◌*◌, ◌/◌, min, max, ℤ, pos, negsuc, Bool, Option, none, some, List, [], ◌∷◌, ◌++◌,
  map, any, ◌==◌, if◌then◌else◌, String, str_eq,
}

pub data OrderDirection : Type 0 where
  asc desc : OrderDirection

pub record PaginationQuery : Type 0 where
  pub page : Option ℤ
  pub limit : Option ℤ
  pub sort_by : Option String
  pub order : Option OrderDirection

pub record PaginationOptions : Type 0 where
  pub page : ℕ
  pub limit : ℕ
  pub skip : ℕ
  pub sort_by : Option String
  pub order : OrderDirection

pub record PaginationMeta : Type 0 where
  pub total : ℕ
  pub page : ℕ
  pub last_page : ℕ
  pub limit : ℕ

pub record PaginatedResponse {ℓ} (T : Type ℓ) : Type ℓ where
  pub data_rows : List T
  pub meta : PaginationMeta

abbrev pub default_page_size : ℕ
default_page_size = 20

abbrev pub max_page_size : ℕ
max_page_size = 100

-- `value || fallback`: an absent value and 0 give the fallback.
abbrev pub or_default : Option ℤ → ℕ → ℤ
or_default none d = pos d
or_default (some (pos n)) d = if n == 0 then pos d else pos n
or_default (some (negsuc n)) d = negsuc n

-- `Math.max(1, value)`.
abbrev pub at_least_one : ℤ → ℕ
at_least_one (pos n) = max 1 n
at_least_one (negsuc n) = 1

-- `Math.min(bound, value)`.
abbrev pub at_most : ℕ → ℤ → ℤ
at_most b (pos n) = pos (min b n)
at_most b (negsuc n) = negsuc n

abbrev pub order_or : Option OrderDirection → OrderDirection → OrderDirection
order_or none d = d
order_or (some o) d = o

unfoldable pub get_pagination_options : PaginationQuery → PaginationOptions
get_pagination_options q =
    let page : ℕ = at_least_one (or_default q.page 1) in
    let limit : ℕ = at_least_one (at_most max_page_size (or_default q.limit default_page_size)) in
    record {
      page = page;
      limit = limit;
      skip = (page - 1) * limit;
      sort_by = q.sort_by;
      order = order_or q.order desc;
    }

-- `total === 0 ? 0 : Math.ceil(total / limit)`; the limit is at least 1.
unfoldable pub last_page_of : ℕ → ℕ → ℕ
last_page_of total limit = if total == 0 then 0 else (total + limit - 1) / limit

unfoldable pub new_page {ℓ} : {T : Type ℓ} → List T → ℕ → ℕ → ℕ → PaginatedResponse T
unfolding last_page_of
new_page rows total page limit = record {
  data_rows = rows;
  meta = record { total = total; page = page; last_page = last_page_of total limit; limit = limit };
}

-- `PaginatedResponse.map`: the mapped rows with the same meta.
unfoldable pub map_page {ℓ κ} :
    {T : Type ℓ} {U : Type κ} → (T → U) → PaginatedResponse T → PaginatedResponse U
map_page f p = record { data_rows = map f p.data_rows; meta = p.meta }

-- What `sortable[sortBy]` finds: a listed SQL expression, or, since the allow-list is an object
-- literal, a member that it inherits from `Object.prototype`.
pub data Expression : Type 0 where
  listed : String → Expression
  inherited : String → Expression

abbrev pub prototype_members : List String
prototype_members =
    "constructor" ∷ "toString" ∷ "toLocaleString" ∷ "valueOf" ∷ "hasOwnProperty" ∷ "isPrototypeOf"
    ∷ "propertyIsEnumerable" ∷ "__proto__" ∷ "__defineGetter__" ∷ "__defineSetter__"
    ∷ "__lookupGetter__" ∷ "__lookupSetter__" ∷ []

unfoldable pub is_prototype_member : String → Bool
is_prototype_member key = any (str_eq key) prototype_members

unfoldable pub member_of : String → List (String × String) → Option Expression
member_of key [] = if is_prototype_member key then some (inherited key) else none
member_of key ((k, e) ∷ rest) = if str_eq k key then some (listed e) else member_of key rest

-- `!expression`: absent, or the empty text.
unfoldable pub usable : Option Expression → Option Expression
usable none = none
usable (some (inherited m)) = some (inherited m)
usable (some (listed e)) = if str_eq e "" then none else some (listed e)

pub record DefaultSort : Type 0 where
  pub expression : String
  pub order : Option OrderDirection

-- One `orderBy`, always NULLS LAST, before the tiebreaker on `id`.
pub data SortClause : Type 0 where
  by_expression : Expression → OrderDirection → SortClause
  by_id : OrderDirection → SortClause

pub record Selection : Type 0 where
  pub order_by : List SortClause
  pub take_rows : ℕ
  pub skip_rows : ℕ

pub data Paginated {ℓ} (T : Type ℓ) : Type ℓ where
  page_of : PaginatedResponse T → Paginated T
  bad_request : String → Paginated T

-- The optional allow-list: absent, it lists nothing, and `undefined?.[key]` inherits nothing.
unfoldable pub lookup_sort : Option (List (String × String)) → String → Option Expression
unfolding usable member_of
lookup_sort none key = none
lookup_sort (some table) key = usable (member_of key table)

abbrev pub default_clauses : Option DefaultSort → OrderDirection → List SortClause
default_clauses none order = []
default_clauses (some d) order = by_expression (listed d.expression) (order_or d.order order) ∷ []

-- `if (sortBy)`: an empty key counts as none.
abbrev pub sort_key : Option String → Option String
sort_key none = none
sort_key (some key) = if str_eq key "" then none else some key

module _ {ℓ} {T : Type ℓ} (run : Selection → List T × ℕ) where
  -- The rest of `paginate` once the sort is settled.
  unfoldable pub fetch_page : List SortClause → PaginationOptions → PaginatedResponse T
  unfolding new_page
  fetch_page clauses o =
      let (rows, total) = run (record {
        order_by = clauses ++ by_id desc ∷ [];
        take_rows = o.limit;
        skip_rows = o.skip;
      }) in
      new_page rows total o.page o.limit

  unfoldable pub paginate :
      PaginationQuery → Option (List (String × String)) → Option DefaultSort → Paginated T
  unfolding get_pagination_options lookup_sort fetch_page
  paginate q sortable default_sort =
      let o = get_pagination_options q in
      elim (sort_key o.sort_by) [
        | none ↦ page_of (fetch_page (default_clauses default_sort o.order) o)
        | some key ↦ elim (lookup_sort sortable key) [
          | none ↦ bad_request key
          | some e ↦ page_of (fetch_page (by_expression e o.order ∷ []) o)
        ]
      ]
