-- ===== src/Pos/Tests.antt =====
-- A run of an order.
use thuso_wechat_ls.Base.{ℕ, List, [], ◌∷◌}
use thuso_wechat_ls.Pos.{Product, Order, Shop}

abbrev bread : Product
bread = record { merchant_id = 3; sku = "BREAD"; price = 1500; stock_quantity = 12000 }

abbrev shop : Shop
shop = record {
  products = (1, bread) ∷ (2, record bread { sku = "MILK"; price = 2250 }) ∷ [];
  orders = [];
  items = [];
}

-- Two loaves and half a unit of milk.
abbrev requests : List (ℕ × ℕ)
requests = (1, 2000) ∷ (2, 500) ∷ []

abbrev sold : Order
sold = record { merchant_id = 3; total = 4125000 }
