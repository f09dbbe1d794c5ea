-- ===== src/Pos.antt =====
-- Orders at the point of sale: app/services/pos.py. Prices are cents, quantities thousandths, as the
-- columns have them, so that a product of them is in hundred-thousandths; the database rounds it to
-- cents where it stores it.
-- An exception undoes the transaction.
pub mod Laws
mod Tests
use thuso_wechat_ls.Base.{
  ℕ, ◌+◌, ◌-◌, ◌*◌, Bool, true, false, ◌||◌, not, Option, none, some, List, [], ◌∷◌, ◌++◌, String,
  ◌<>◌, ◌==◌, ltb, if◌then◌else◌, length, Table, find, put, Exec, Result, ok, err, value_error,
  key_error,
}
use thuso_wechat_ls.Money.{round_half_up}
use thuso_wechat_ls.Base.Uuid.{uuid_text}

pub record Product : Type 0 where
  pub merchant_id : ℕ
  pub sku : String
  pub price : ℕ
  pub stock_quantity : ℕ

-- The order as it is returned, with its total in hundred-thousandths, and its row, in cents.
pub record Order : Type 0 where
  pub merchant_id : ℕ
  pub total : ℕ

pub record OrderRow : Type 0 where
  pub merchant_id : ℕ
  pub total : ℕ

pub record OrderItem : Type 0 where
  pub order_id : ℕ
  pub product_id : ℕ
  pub quantity : ℕ
  pub unit_price : ℕ
  pub line_total : ℕ

pub record Shop : Type 0 where
  pub products : Table Product
  pub orders : Table OrderRow
  pub items : List OrderItem

-- `id in product_ids`
unfoldable pub is_requested : ℕ → List (ℕ × ℕ) → Bool
is_requested id [] = false
is_requested id ((k, q) ∷ l) = k == id || is_requested id l

-- `len(by_id)`, the products that the query finds.
unfoldable pub count_found : List (ℕ × ℕ) → Table Product → ℕ
unfolding is_requested
count_found requests [] = 0
count_found requests ((id, p) ∷ t) =
    let rest = count_found requests t in if is_requested id requests then rest + 1 else rest

-- A value in hundred-thousandths in a column of the type numeric(14,2): a half goes away from zero.
abbrev pub to_cents : ℕ → ℕ
to_cents amount = round_half_up amount 1000

-- The products after the loop, the lines and the total, which is the sum before any rounding.
abbrev pub Filled : Type 0
Filled = Table Product × List OrderItem × ℕ

abbrev pub add_line : OrderItem → ℕ → Result Filled → Result Filled
add_line line line_total (err k m) = err k m
add_line line line_total (ok f) = ok (f.0, line ∷ f.1, line_total + f.2)

abbrev pub line_of : (order_id product_id quantity : ℕ) → Product → OrderItem
line_of order_id product_id quantity p = record {
  order_id = order_id;
  product_id = product_id;
  quantity = quantity;
  unit_price = p.price;
  line_total = to_cents (p.price * quantity);
}

abbrev pub take_stock : ℕ → Product → Product
take_stock quantity p = record p { stock_quantity = p.stock_quantity - quantity }

-- The loop over the requested products and quantities.
unfoldable pub fill : (order_id : ℕ) → List (ℕ × ℕ) → Table Product → Result Filled
fill order_id [] t = ok (t, [], 0)
fill order_id ((id, quantity) ∷ requests) t = elim (find id t) [
  | none ↦ err key_error (uuid_text id)
  | some p ↦ elim (ltb p.stock_quantity quantity) [
    | true ↦ err value_error ("insufficient stock for " <> p.sku)
    | false ↦
        add_line (line_of order_id id quantity p) (p.price * quantity)
          (fill order_id requests (put id (take_stock quantity p) t))
  ]
]

unfoldable pub store_order : (order_id merchant_id : ℕ) → Result Filled → Exec Shop Order
store_order order_id merchant_id (err k m) s = (err k m, s)
store_order order_id merchant_id (ok f) s =
    let row : OrderRow = record { merchant_id = merchant_id; total = to_cents f.2 } in
    (
      ok (record { merchant_id = merchant_id; total = f.2 }),
      record { products = f.0; orders = put order_id row s.orders; items = s.items ++ f.1 },
    )

pub create_order : (order_id merchant_id : ℕ) → List (ℕ × ℕ) → Exec Shop Order
unfolding count_found fill store_order
create_order order_id merchant_id requests s =
    if count_found requests s.products == length requests
    then store_order order_id merchant_id (fill order_id requests s.products) s
    else (err value_error "one or more products not found", s)
