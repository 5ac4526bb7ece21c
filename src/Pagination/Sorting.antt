-- ===== src/Pagination/Sorting.antt =====
-- What a client's sort key can put into ORDER BY.
use mathlib.Core.Path.{subst}
use gov_jobs_backend.Base.{
  ℕ, ◌≡◌, refl, ◌≢◌, ◌⊎◌, inl, inr, true, false, Option, none, some, List, [], ◌∷◌, ◌++◌, arith,
  All, String, str_eq, str_eq_iff, Option-cases, Bool-cases, sym, ◌↔◌, if◌then◌else◌,
}
use gov_jobs_backend.Pagination.Windows.{rows_of}
use gov_jobs_backend.Pagination.{
  PaginationQuery, Selection, DefaultSort, bad_request, SortClause, by_expression, by_id,
  Expression, listed, inherited, fetch_page, new_page, paginate, sort_key, OrderDirection, desc,
  lookup_sort, get_pagination_options, member_of, usable, is_prototype_member, order_or,
  default_clauses,
}

-- The text is one of the allow-list's expressions, or that of the default sort.
abbrev pub IsListed : List (String × String) → Option DefaultSort → String → Type 0
IsListed [] none e = ⊥
IsListed [] (some d) e = e ≡ d.expression
IsListed ((k, x) ∷ table) d e = (e ≡ x) ⊎ IsListed table d e

abbrev pub table_of : Option (List (String × String)) → List (String × String)
table_of none = []
table_of (some table) = table

abbrev pub IsSafeClause :
    Option (List (String × String)) → Option DefaultSort → Option String → SortClause → Type 0
IsSafeClause sortable default_sort key (by_expression (listed e) order) =
    IsListed (table_of sortable) default_sort e
IsSafeClause sortable default_sort key (by_expression (inherited m) order) =
    (key ≡ some m) × (is_prototype_member m ≡ true)
IsSafeClause sortable default_sort key (by_id order) = Unit

member_of-IsListed :
    (key : String) (table : List (String × String)) (d : Option DefaultSort) (e : String)
    → member_of key table ≡ some (listed e)
    → IsListed table d e
unfolding member_of
member_of-IsListed key [] d e h = ground arith
member_of-IsListed key ((k, x) ∷ table) d e h = ground (arith, member_of-IsListed key table d e)

member_of-inherited :
    (key : String) (table : List (String × String)) (m : String)
    → member_of key table ≡ some (inherited m)
    → (key ≡ m) × (is_prototype_member m ≡ true)
unfolding member_of
member_of-inherited key [] m h = ground arith
member_of-inherited key ((k, x) ∷ table) m h = ground (arith, member_of-inherited key table m)

lookup_sort-IsSafeClause :
    (sortable : Option (List (String × String))) (d : Option DefaultSort) (key : String)
    (e : Expression) (order : OrderDirection)
    → lookup_sort sortable key ≡ some e
    → IsSafeClause sortable d (some key) (by_expression e order)
unfolding lookup_sort usable
lookup_sort-IsSafeClause none d key e order h = cc
lookup_sort-IsSafeClause (some table) d key (listed x) order h =
    ground (arith, member_of-IsListed key table d x)
lookup_sort-IsSafeClause (some table) d key (inherited m) order h =
    ground (arith, member_of-inherited key table m)

default-IsListed :
    (table : List (String × String)) (d : DefaultSort) → IsListed table (some d) d.expression
default-IsListed [] d = refl
default-IsListed ((k, x) ∷ table) d = inr (default-IsListed table d)

abbrev pub SafeSelection :
    Option (List (String × String)) → Option DefaultSort → Option String → Selection → Type 0
SafeSelection sortable d key s = All (IsSafeClause sortable d key) s.order_by

default_clauses-safe :
    (sortable : Option (List (String × String))) (d : Option DefaultSort) (key : Option String)
    (order : OrderDirection)
    → All (IsSafeClause sortable d key) (default_clauses d order ++ by_id desc ∷ [])
default_clauses-safe sortable none key order = (tt, tt)
default_clauses-safe sortable (some d) key order =
    (default-IsListed (table_of sortable) d, (tt, tt))

sort_key-some : (o : Option String) (key : String) → sort_key o ≡ some key → o ≡ some key
sort_key-some none key h = cc
sort_key-some (some k) key h = ground arith

-- What the database is asked, in place of rows.
abbrev pub asked : Selection → List Selection × ℕ
asked s = (s ∷ [], 1)

-- Whatever the client sends, every expression of the ORDER BY that reaches the database is an
-- entry of the allow-list or the default sort, or else a member that the allow-list inherits from
-- `Object.prototype`, and then the client's key is that member's name.
pub paginate-SafeSelection :
    (q : PaginationQuery) (sortable : Option (List (String × String))) (d : Option DefaultSort)
    → All (SafeSelection sortable d q.sort_by) (rows_of (paginate asked q sortable d))
unfolding paginate get_pagination_options fetch_page new_page
paginate-SafeSelection q sortable d = elim (Option-cases (sort_key q.sort_by)) [
  | inl e ↦ rw (e, paginate) (default_clauses-safe sortable d q.sort_by _, tt)
  | inr (key, e) ↦ elim (Option-cases (lookup_sort sortable key)) [
    | inl missing ↦ rw (e, paginate) (rw (missing, paginate) tt)
    | inr (x, found) ↦
        let safe : IsSafeClause sortable d q.sort_by (by_expression x (order_or q.order desc)) =
          subst (λ k. IsSafeClause sortable d k (by_expression x (order_or q.order desc)))
            (sym (sort_key-some q.sort_by key e))
            (lookup_sort-IsSafeClause sortable d key x _ found) in
        rw (e, paginate) (rw (found, paginate) ((safe, (tt, tt)), tt))
  ]
]

-- The allow-list has no entry of that name.
abbrev pub IsUnlisted : String → List (String × String) → Type 0
IsUnlisted key [] = Unit
IsUnlisted key ((k, x) ∷ table) = (str_eq k key ≡ false) × IsUnlisted key table

member_of_of_IsUnlisted :
    (key : String) (table : List (String × String))
    → IsUnlisted key table
    → member_of key table ≡ (if is_prototype_member key then some (inherited key) else none)
unfolding member_of
member_of_of_IsUnlisted key [] h = refl
member_of_of_IsUnlisted key ((k, x) ∷ table) (h, hs) = rw h (member_of_of_IsUnlisted key table hs)

sort_key_of_ne : (key : String) → key ≢ "" → sort_key (some key) ≡ some key
sort_key_of_ne key h = ground (arith, str_eq_iff key "")

lookup_sort_unlisted :
    (key : String) (table : List (String × String))
    → IsUnlisted key table
    → lookup_sort (some table) key
      ≡ (if is_prototype_member key then some (inherited key) else none)
unfolding lookup_sort usable
lookup_sort_unlisted key table h =
    rw (member_of_of_IsUnlisted key table h)
      (elim (Bool-cases (is_prototype_member key)) [ inl e ↦ rw e | inr e ↦ rw e ])

module _ {ℓ} {T : Type ℓ} (run : Selection → List T × ℕ) where
  -- A key that no entry lists is refused with a 400 unless it names a member of
  -- `Object.prototype`; such a key is accepted, and the member goes into ORDER BY.
  pub paginate_unlisted_iff :
      (q : PaginationQuery) (table : List (String × String)) (d : Option DefaultSort) (key : String)
      → q.sort_by ≡ some key
      → key ≢ ""
      → IsUnlisted key table
      → (paginate run q (some table) d ≡ bad_request key) ↔ (is_prototype_member key ≡ false)
  unfolding paginate
  paginate_unlisted_iff q table d key h ne free =
      let sorted : sort_key q.sort_by ≡ some key = rw h (sort_key_of_ne key ne) in
      elim (Bool-cases (is_prototype_member key)) [
        | inl e ↦
            rw (sorted, paginate) (rw (lookup_sort_unlisted key table free, e) (λ p. cc, λ p. cc))
        | inr e ↦
            rw (sorted, paginate)
              (rw (lookup_sort_unlisted key table free, e) (λ p. refl, λ p. refl))
      ]
