-- ===== src/Matching/Records.antt =====
-- The records of a match, which move no money: the trades that are inserted, and the orders that are
-- updated.
use cex_go.Database.Ensures.{Ensures-unless, Ensures, Ensures-bind}
use cex_go.Queries.Order.Effects.{OwnersExist, update_order_status_and_quantity_tx-Moved}
use cex_go.Queries.Order.{update_order_status_and_quantity_tx}
use cex_go.Queries.Trades.{insert_trade_tx}
use cex_go.Queries.Trades.Effects.{OnlyTrades, IsRecorded, insert_trade_tx-Ensures}
use cex_go.Prelude.{String, ◌≡◌, List, [], ◌∷◌, All, ℕ, refl, ◌∙◌, ◌==◌}
use cex_go.Prelude.Int.{pos}
use cex_go.Models.{Trade, Order}
use cex_go.Database.{Db, Session, ◌>>=◌, unless, pure}
use cex_go.Queries.Balance.Totals.{Moved, Moved-none}
use cex_go.Float.{Float64, IsWhole}
use cex_go.Matching.Settle.{cost, insert_trades, update_others}
use cex_go.Matching.Moves.{IsSound, IsSound-kept, Moved-then}

-- All trades are in the base asset `base`.
abbrev pub AllIn : String → List Trade → Type 0
AllIn base = All (λ t. t.base_asset ≡ base)

-- Eight decimals hold the cost of each trade.
abbrev pub AllWhole : ⦃f : Float64⦄ → List Trade → Type 0
AllWhole = All (λ t. IsWhole (cost t))

pub insert_trades-Ensures :
    ⦃f : Float64⦄ (base : String) (ts : List Trade) (s : Session)
    → OwnersExist s.db
    → AllIn base ts
    → AllWhole ts
    → Ensures (λ qs db. All (IsSound base s.db) qs × OnlyTrades s.db db) (insert_trades ts s)
unfolding insert_trades
insert_trades-Ensures base [] s owners h w = (tt, (refl, refl, refl))
insert_trades-Ensures base (t ∷ ts) s owners h w =
    let Q : List Trade → Db → Type 0 = λ qs db. All (IsSound base s.db) qs × OnlyTrades s.db db in
    Ensures-bind (λ q db. IsRecorded s.db t q × OnlyTrades s.db db) Q (insert_trade_tx t)
      (λ q. insert_trades ts >>= λ qs. pure (q ∷ qs)) s (insert_trade_tx-Ensures t s owners)
      λ q s' ((x, y, b, u, v, p, z), (us, bs, os)).
        Ensures-bind (λ qs db. All (IsSound base s'.db) qs × OnlyTrades s'.db db) Q
          (insert_trades ts) (λ qs. pure (q ∷ qs)) s'
          (insert_trades-Ensures base ts s' (rw (us, os) owners) h.1 w.1)
          λ qs s'' (sound, (us', bs', os')). (
            (
              (x, y, b ∙ h.0, u, v, rw (p, z) w.0),
              IsSound-kept base qs s'.db s.db (λ k e. rw us at e) sound,
            ),
            (us' ∙ us, bs' ∙ bs, os' ∙ os),
          )

module _ (a : String) where
  pub update_others-Moved :
      (incoming : ℕ) (os : List Order) (s : Session)
      → Ensures (λ _ db. Moved a (pos 0) (pos 0) s.db db) (update_others incoming os s)
  unfolding update_others
  update_others-Moved incoming [] s = Moved-none a s.db
  update_others-Moved incoming (o ∷ os) s =
      let update = update_order_status_and_quantity_tx o.id o.status o.filled_quantity in
      Moved-then a (unless (o.id == incoming) update) (λ _. update_others incoming os) s
        (Ensures-unless (o.id == incoming) update s (λ _ db. Moved a (pos 0) (pos 0) s.db db)
          (λ _. Moved-none a s.db)
          λ _. update_order_status_and_quantity_tx-Moved a o.id o.status o.filled_quantity s)
        λ _ s' _. update_others-Moved incoming os s'
