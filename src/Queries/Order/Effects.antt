-- ===== src/Queries/Order/Effects.antt =====
-- What the queries of db/queries/order.go that run in a transaction leave alone: the money and the
-- users; and that every order keeps a user who is there.
use cex_go.Prelude.{ℕ, String, ◌≡◌, refl, true, All, inl, inr}
use cex_go.Prelude.Int.{ℤ, pos, int_laws}
use cex_go.Database.{Db, OrderRow, Session, order_check}
use cex_go.Database.Statement.{exists}
use cex_go.Database.Ensures.{Ensures, Ensures-mono, exec_update-Ensures}
use cex_go.Queries.Balance.{of_user}
use cex_go.Queries.Balance.Totals.{Moved, usd_total, asset_total}
use cex_go.Queries.Order.{put_orders, of_order, update_order_status_and_quantity_tx}

-- The user of every order is there.
abbrev pub OwnersExist : Db → Type 0
OwnersExist db = All (λ (r : OrderRow). exists (of_user r.user_id) db.users ≡ true) db.orders

module _ (a : String) where
  -- A step that leaves the users and the balances alone moves no money.
  pub same-Moved :
      (before after : Db)
      → after.users ≡ before.users
      → after.balances ≡ before.balances
      → Moved a (pos 0) (pos 0) before after
  unfolding usd_total asset_total
  same-Moved before after u b = rw (u, b) (omega int_laws, omega int_laws, λ k h. h)

  pub update_order_status_and_quantity_tx-Moved :
      (id : ℕ) (status : String) (filled_quantity : ℤ) (s : Session)
      → Ensures
          (λ _ db. Moved a (pos 0) (pos 0) s.db db)
          (update_order_status_and_quantity_tx id status filled_quantity s)
  unfolding update_order_status_and_quantity_tx
  update_order_status_and_quantity_tx-Moved id status filled_quantity s =
      Ensures-mono _ (λ _ db. Moved a (pos 0) (pos 0) s.db db) _
        (exec_update-Ensures (λ db. db.orders) put_orders (of_order id)
          (λ r. record r { status = status; filled_quantity = filled_quantity }) order_check s)
        λ _ db u. elim u [
          | inl (_, e) ↦ rw e (same-Moved s.db s.db refl refl)
          | inr (_, _, _, e) ↦ rw e (same-Moved s.db _ refl refl)
        ]
