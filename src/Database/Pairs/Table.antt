-- ===== src/Database/Pairs/Table.antt =====
-- The table of pairs, read back through the repository.
use bancod.Prelude.{
  ◌≡◌, refl, sym, ◌∙◌, ap, subst, ◌⊎◌, inl, inr, Bool, true, false, List, [], ◌∷◌, ◌++◌, ◌==◌,
  if◌then◌else◌, Bytes, bytes_equal, bytes_equal→eq, eq→bytes_equal, IsU64, to_u64-to_i64,
  Bool-cases, ok, err, ok-injective, arith, not, ◌||◌,
}
use bancod.Banco.Pair.{Pair}
use bancod.Database.Pairs.{
  BancoPair, duplicate_pair, pair_not_found, bool_to_int, int_to_bool, to_row, to_domain_pair,
  has_row, insert_pair, update_pair, delete_pair, list, add, update, remove,
}

-- The numbers of a pair are 64 bits wide.
pub record IsWide (p : Pair) : Type 0 where
  pub min_amount : IsU64 p.min_amount
  pub max_amount : IsU64 p.max_amount
  pub base_decimals : IsU64 p.base_decimals
  pub quote_decimals : IsU64 p.quote_decimals

int_to_bool-bool_to_int : (b : Bool) → int_to_bool (bool_to_int b) ≡ b
unfolding int_to_bool bool_to_int
int_to_bool-bool_to_int true = refl
int_to_bool-bool_to_int false = refl

-- A pair with numbers of 64 bits survives the int64 columns of its row.
pub to_domain_pair-to_row : (p : Pair) → IsWide p → to_domain_pair (to_row p) ≡ p
unfolding to_domain_pair to_row int_to_bool bool_to_int
to_domain_pair-to_row p h =
    rw
      (
        to_u64-to_i64 p.min_amount h.min_amount,
        to_u64-to_i64 p.max_amount h.max_amount,
        to_u64-to_i64 p.base_decimals h.base_decimals,
        to_u64-to_i64 p.quote_decimals h.quote_decimals,
        int_to_bool-bool_to_int p.invert_price,
      )
      refl

-- No two rows have the same primary key.
unfoldable pub IsKeyed : List BancoPair → Type 0
IsKeyed [] = Unit
IsKeyed (r ∷ rows) = (has_row r.pair rows ≡ false) × IsKeyed rows

list-append :
    (rows : List BancoPair) (r : BancoPair)
    → list (rows ++ r ∷ []) ≡ list rows ++ to_domain_pair r ∷ []
unfolding list
list-append [] r = refl
list-append (x ∷ rows) r = ap (λ ps. to_domain_pair x ∷ ps) (list-append rows r)

-- For a pair with numbers of 64 bits, Add fails exactly where a pair has the name; otherwise List
-- shows the old pairs and the new one behind them.
pub list-add :
    (p : Pair) (rows : List BancoPair)
    → IsWide p
    → ((has_row p.pair rows ≡ true) × (add p rows ≡ err duplicate_pair))
      ⊎ ((has_row p.pair rows ≡ false)
          × ((rows' : List BancoPair) × (add p rows ≡ ok rows')
              × (list rows' ≡ list rows ++ p ∷ [])))
unfolding add insert_pair to_row
list-add p rows h = elim (Bool-cases (has_row p.pair rows)) [
  | inl there ↦ inl (there, rw there refl)
  | inr free ↦ inr (
    free,
    (
      rows ++ to_row p ∷ [],
      rw free refl,
      list-append rows (to_row p) ∙ ap (λ q. list rows ++ q ∷ []) (to_domain_pair-to_row p h),
    ),
  )
]

-- The pairs, with those of the name replaced.
abbrev pub replace_pair : Pair → List Pair → List Pair
replace_pair p [] = []
replace_pair p (q ∷ ps) = (if bytes_equal q.pair p.pair then p else q) ∷ replace_pair p ps

list-update_pair :
    (p : Pair) (rows : List BancoPair)
    → IsWide p
    → (list (update_pair (to_row p) rows).1 ≡ replace_pair p (list rows))
      × (((update_pair (to_row p) rows).0 == 0) ≡ not (has_row p.pair rows))
unfolding list update_pair has_row to_row to_domain_pair
list-update_pair p [] h = (refl, refl)
list-update_pair p (r ∷ rows) h =
    let (shown, count) = list-update_pair p rows h in
    elim (Bool-cases (bytes_equal r.pair p.pair)) [
      | inl same ↦ rw same (
        ap (λ q. q ∷ list (update_pair (to_row p) rows).1) (to_domain_pair-to_row p h)
            ∙ ap (λ ps. p ∷ ps) shown,
        ground arith,
      )
      | inr other ↦ rw other (ap (λ ps. to_domain_pair r ∷ ps) shown, count)
    ]

-- For a pair with numbers of 64 bits, Update fails exactly where no pair has the name; otherwise
-- List shows the old pairs with the new one in place of those of its name.
pub list-update :
    (p : Pair) (rows : List BancoPair)
    → IsWide p
    → ((has_row p.pair rows ≡ false) × (update p rows ≡ err pair_not_found))
      ⊎ ((has_row p.pair rows ≡ true)
          × ((rows' : List BancoPair) × (update p rows ≡ ok rows')
              × (list rows' ≡ replace_pair p (list rows))))
unfolding update
list-update p rows h =
    let (shown, count) = list-update_pair p rows h in
    elim (Bool-cases (has_row p.pair rows)) [
      | inl there ↦ inr (there, ((update_pair (to_row p) rows).1, rw (count, there) refl, shown))
      | inr free ↦ inl (free, rw (count, free) refl)
    ]

-- The operations keep the primary key.
bytes_equal_swap : (xs ys : Bytes) → bytes_equal xs ys ≡ false → bytes_equal ys xs ≡ false
bytes_equal_swap xs ys h = elim (Bool-cases (bytes_equal ys xs)) [
  | inl same ↦ let both = eq→bytes_equal xs ys (sym (bytes_equal→eq ys xs same)) in absurd cc
  | inr other ↦ other
]

has_row-append :
    (name : Bytes) (rows : List BancoPair) (r : BancoPair)
    → has_row name (rows ++ r ∷ []) ≡ (has_row name rows || bytes_equal r.pair name)
unfolding has_row
has_row-append name [] r = ground arith
has_row-append name (x ∷ rows) r = ground (arith, has_row-append name rows r)

IsKeyed-append :
    (rows : List BancoPair) (r : BancoPair)
    → has_row r.pair rows ≡ false
    → IsKeyed rows
    → IsKeyed (rows ++ r ∷ [])
unfolding IsKeyed has_row
IsKeyed-append [] r h k = (refl, tt)
IsKeyed-append (x ∷ rows) r h (k, ks) = elim (Bool-cases (bytes_equal x.pair r.pair)) [
  | inl same ↦ let h' = rw same at h in absurd cc
  | inr other ↦ (
    has_row-append x.pair rows r ∙ rw (k, bytes_equal_swap x.pair r.pair other) refl,
    IsKeyed-append rows r (rw other at h) ks,
  )
]

has_row-update :
    (name : Bytes) (row : BancoPair) (rows : List BancoPair)
    → has_row name (update_pair row rows).1 ≡ has_row name rows
unfolding has_row update_pair
has_row-update name row [] = refl
has_row-update name row (x ∷ rows) = elim (Bool-cases (bytes_equal x.pair row.pair)) [
  | inl same ↦
      rw (same, bytes_equal→eq x.pair row.pair same)
        (ap (λ b. if bytes_equal row.pair name then true else b) (has_row-update name row rows))
  | inr other ↦
      rw other
        (ap (λ b. if bytes_equal x.pair name then true else b) (has_row-update name row rows))
]

has_row-delete :
    (name other : Bytes) (rows : List BancoPair)
    → has_row name rows ≡ false
    → has_row name (delete_pair other rows) ≡ false
unfolding has_row delete_pair
has_row-delete name other [] h = refl
has_row-delete name other (x ∷ rows) h = ground (arith, has_row-delete name other rows)

IsKeyed-update :
    (row : BancoPair) (rows : List BancoPair) → IsKeyed rows → IsKeyed (update_pair row rows).1
unfolding IsKeyed update_pair
IsKeyed-update row [] k = tt
IsKeyed-update row (x ∷ rows) (k, ks) = elim (Bool-cases (bytes_equal x.pair row.pair)) [
  | inl same ↦ rw same (
    has_row-update row.pair row rows
        ∙ subst (λ n. has_row n rows ≡ false) (bytes_equal→eq x.pair row.pair same) k,
    IsKeyed-update row rows ks,
  )
  | inr other ↦ rw other (has_row-update x.pair row rows ∙ k, IsKeyed-update row rows ks)
]

IsKeyed-delete :
    (name : Bytes) (rows : List BancoPair) → IsKeyed rows → IsKeyed (delete_pair name rows)
unfolding IsKeyed delete_pair
IsKeyed-delete name [] k = tt
IsKeyed-delete name (x ∷ rows) (k, ks) = elim (Bool-cases (bytes_equal x.pair name)) [
  | inl same ↦ rw same (IsKeyed-delete name rows ks)
  | inr other ↦ rw other (has_row-delete x.pair name rows k, IsKeyed-delete name rows ks)
]

-- Where no two rows have one name, Add and Update, if they succeed, and Remove leave a table in
-- which no two rows have one name.
pub operations-IsKeyed :
    (p : Pair) (name : Bytes) (rows : List BancoPair)
    → IsKeyed rows
    → ((rows' : List BancoPair) → add p rows ≡ ok rows' → IsKeyed rows')
      × ((rows' : List BancoPair) → update p rows ≡ ok rows' → IsKeyed rows')
      × IsKeyed (remove name rows)
unfolding add insert_pair update remove
operations-IsKeyed p name rows k = (
  (λ rows' e. elim (Bool-cases (has_row (to_row p).pair rows)) [
    | inl there ↦ let e' = rw there at e in absurd cc
    | inr free ↦
        subst IsKeyed (ok-injective _ _ (rw free at e)) (IsKeyed-append rows (to_row p) free k)
  ]),
  (λ rows' e. elim (Bool-cases ((update_pair (to_row p) rows).0 == 0)) [
    | inl zero_rows ↦ let e' = rw zero_rows at e in absurd cc
    | inr some_rows ↦
        subst IsKeyed (ok-injective _ _ (rw some_rows at e)) (IsKeyed-update (to_row p) rows k)
  ]),
  IsKeyed-delete name rows k,
)

-- Behind Remove, no pair has the name.
remove-has_row : (name : Bytes) (rows : List BancoPair) → has_row name (remove name rows) ≡ false
unfolding has_row remove delete_pair
remove-has_row name [] = refl
remove-has_row name (x ∷ rows) = elim (Bool-cases (bytes_equal x.pair name)) [
  | inl same ↦ rw same (remove-has_row name rows)
  | inr other ↦ rw (other, other) (remove-has_row name rows)
]

-- The pairs, without those of the name.
abbrev pub without_name : Bytes → List Pair → List Pair
without_name name [] = []
without_name name (p ∷ ps) =
    if bytes_equal p.pair name then without_name name ps else p ∷ without_name name ps

pub list-remove :
    (name : Bytes) (rows : List BancoPair) → list (remove name rows) ≡ without_name name (list rows)
unfolding list remove delete_pair to_domain_pair
list-remove name [] = refl
list-remove name (x ∷ rows) = elim (Bool-cases (bytes_equal x.pair name)) [
  | inl same ↦ rw same (list-remove name rows)
  | inr other ↦ rw other (ap (λ ps. to_domain_pair x ∷ ps) (list-remove name rows))
]

pub list-nil : list [] ≡ []
unfolding list
list-nil = refl
