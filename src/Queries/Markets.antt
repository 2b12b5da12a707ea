-- ===== src/Queries/Markets.antt =====
-- db/queries/market.go: `GetAllMarkets` and `CreateMarket`.
use cex_go.Prelude.{ℕ, String, Bool, ◌&&◌, ◌||◌, ◌==◌, str_eq, true, List}
use cex_go.Prelude.Int.{ℤ, pos, ltb_ℤ, leb_ℤ}
use cex_go.Models.{Market}
use cex_go.Database.{Db, Tick, Tx, ◌>>=◌, pure}
use cex_go.Database.Statement.{exec_insert, exists}
use cex_go.Database.Listing.{select_all, query_rows}
use cex_go.Queries.Balance.{of_symbol}
use cex_go.Queries.Order.{put_markets}

unfoldable pub get_all_markets : Tx (List Market)
unfolding query_rows
get_all_markets = query_rows λ db. select_all (λ m. m.is_active) db.markets

-- The row of an INSERT, with the columns' defaults
abbrev pub new_market_row : String → String → String → ℤ → ℤ → ℤ → ℤ → Tick → Market
new_market_row name base_asset quote_asset min_size max_size taker_fee maker_fee t = record {
  id = t.uuid;
  name = name;
  base_asset = base_asset;
  quote_asset = quote_asset;
  created_at = t.now;
  is_active = true;
  min_order_size = min_size;
  max_order_size = max_size;
  taker_fee = taker_fee;
  maker_fee = maker_fee;
  current_price = pos 0;
}

abbrev pub market_check : Market → Bool
market_check m =
    ltb_ℤ (pos 0) m.min_order_size
    && ltb_ℤ (pos 0) m.max_order_size
    && leb_ℤ (pos 0) m.taker_fee
    && leb_ℤ (pos 0) m.maker_fee
    && leb_ℤ (pos 0) m.current_price

-- PRIMARY KEY (id), UNIQUE (base_asset, quote_asset)
abbrev pub same_market_key : Market → Market → Bool
same_market_key m n =
    n.id == m.id || (str_eq n.base_asset m.base_asset && str_eq n.quote_asset m.quote_asset)

-- The references of a market to its assets
abbrev pub market_known : Market → Db → Bool
market_known m db =
    exists (of_symbol m.base_asset) db.assets && exists (of_symbol m.quote_asset) db.assets

unfoldable pub create_market : String → String → String → ℤ → ℤ → ℤ → ℤ → Tx ℕ
unfolding exec_insert
create_market name base_asset quote_asset min_size max_size taker_fee maker_fee = do
  row ←
      exec_insert (λ db. db.markets) put_markets
        (new_market_row name base_asset quote_asset min_size max_size taker_fee maker_fee)
        market_check same_market_key market_known
  pure row.id
