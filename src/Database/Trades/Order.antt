-- ===== src/Database/Trades/Order.antt =====
-- The order of the trades that are listed.
use bancod.Prelude.{
  ℕ, zero, suc, ◌≡◌, ◌≤◌, List, [], ◌∷◌, true, false, ◌==◌, if◌then◌else◌, take, length, Bool-cases,
  inl, inr, map, arith,
}
use bancod.Database.Trades.{
  Trade, TradeRow, TradeTable, is_before, insert_row, order_rows, to_trade, list_trades,
}

-- The second trade is not newer than the first: by its time, and by its id at the same time.
abbrev pub IsNotNewer : Trade → Trade → Type 0
IsNotNewer a b = (b.created_at ≤ a.created_at) × (a.created_at ≡ b.created_at → b.id ≤ a.id)

abbrev pub IsNewestFirst : List Trade → Type 0
IsNewestFirst [] = Unit
IsNewestFirst (a ∷ []) = Unit
IsNewestFirst (a ∷ b ∷ ts) = IsNotNewer a b × IsNewestFirst (b ∷ ts)

-- The same of rows, by the test.
abbrev IsOrdered : List TradeRow → Type 0
IsOrdered [] = Unit
IsOrdered (a ∷ []) = Unit
IsOrdered (a ∷ b ∷ rows) = (is_before b a ≡ false) × IsOrdered (b ∷ rows)

is_before-swap : (a b : TradeRow) → is_before a b ≡ true → is_before b a ≡ false
unfolding is_before
is_before-swap a b h = ground arith

insert_row-IsOrdered :
    (r : TradeRow) (rows : List TradeRow) → IsOrdered rows → IsOrdered (insert_row r rows)
unfolding insert_row
insert_row-IsOrdered r [] h = tt
insert_row-IsOrdered r (x ∷ []) h = elim (Bool-cases (is_before r x)) [
  | inl first ↦ rw first (is_before-swap r x first, tt)
  | inr later ↦ rw later (later, tt)
]
insert_row-IsOrdered r (x ∷ y ∷ rows) (g, h) = elim (Bool-cases (is_before r x)) [
  | inl first ↦ rw first (is_before-swap r x first, (g, h))
  | inr later ↦ elim (Bool-cases (is_before r y)) [
    | inl second ↦ rw (later, second) (later, (is_before-swap r y second, h))
    | inr last ↦
        let rest = insert_row-IsOrdered r (y ∷ rows) h in
        let rest' = rw last at rest in rw (later, last) (g, rest')
  ]
]

order_rows-IsOrdered : (rows : List TradeRow) → IsOrdered (order_rows rows)
unfolding order_rows
order_rows-IsOrdered [] = tt
order_rows-IsOrdered (r ∷ rows) =
    insert_row-IsOrdered r (order_rows rows) (order_rows-IsOrdered rows)

IsOrdered-newest :
    (n : ℕ) (rows : List TradeRow) → IsOrdered rows → IsNewestFirst (map to_trade (take n rows))
unfolding to_trade is_before
IsOrdered-newest zero rows h = tt
IsOrdered-newest (suc n) [] h = tt
IsOrdered-newest (suc zero) (a ∷ []) h = tt
IsOrdered-newest (suc (suc n)) (a ∷ []) h = tt
IsOrdered-newest (suc zero) (a ∷ b ∷ rows) h = tt
IsOrdered-newest (suc (suc n)) (a ∷ b ∷ rows) (g, h) =
    ((ground arith, λ e. ground arith), IsOrdered-newest (suc n) (b ∷ rows) h)

take-length : (n : ℕ) (rows : List TradeRow) → length (map to_trade (take n rows)) ≤ n
take-length zero rows = omega arith
take-length (suc n) [] = omega arith
take-length (suc n) (r ∷ rows) = omega (arith, take-length n rows)

-- ListTrades gives the trades newest first, by time and by id at the same time, and no more than
-- the limit, or than 100 where the limit is 0.
pub list_trades-IsNewestFirst :
    (limit : ℕ) (table : TradeTable)
    → IsNewestFirst (list_trades limit table)
      × (length (list_trades limit table) ≤ (if limit == 0 then 100 else limit))
unfolding list_trades
list_trades-IsNewestFirst limit table = (
  IsOrdered-newest (if limit == 0 then 100 else limit) (order_rows table.rows)
      (order_rows-IsOrdered table.rows),
  take-length (if limit == 0 then 100 else limit) (order_rows table.rows),
)
