-- ===== src/Database/Rows.antt =====
-- The tables of db/migrations/001_initial_schema.up.sql, a row type for each, and the columns'
-- CHECK constraints. A row's price and quantity count 10^-8.
use cex_go.Prelude.{ℕ, String, Bool, ◌&&◌, ◌||◌, List, str_eq}
use cex_go.Prelude.Int.{ℤ, pos, ltb_ℤ, leb_ℤ}
use cex_go.Models.{
  Market, buy, sell, open_status, filled, partially_filled, cancelled, closed, pending, limit,
  market,
}

pub record UserRow : Type 0 where
  pub id : ℕ
  pub email : String
  pub password_hash : String
  pub usd_balance : ℤ
  pub locked_balance : ℤ
  pub role : String

pub record BalanceRow : Type 0 where
  pub user_id : ℕ
  pub asset : String
  pub available : ℤ
  pub locked : ℤ

pub record OrderRow : Type 0 where
  pub id : ℕ
  pub user_id : ℕ
  pub market_id : ℕ
  pub quantity : ℤ
  pub price : ℤ
  pub side : String
  pub status : String
  pub created_at : ℤ
  pub order_type : String
  pub filled_quantity : ℤ

pub record TradeRow : Type 0 where
  pub id : ℕ
  pub buy_order_id : ℕ
  pub sell_order_id : ℕ
  pub quantity : ℤ
  pub price : ℤ
  pub created_at : ℤ
  pub quote_asset : String
  pub base_asset : String

pub record AssetRow : Type 0 where
  pub symbol : String
  pub name : String
  pub is_active : Bool
  pub icon_url : String

pub record Db : Type 0 where
  pub users : List UserRow
  pub balances : List BalanceRow
  pub orders : List OrderRow
  pub trades : List TradeRow
  pub markets : List Market
  pub assets : List AssetRow

abbrev pub user_check : UserRow → Bool
user_check r = leb_ℤ (pos 0) r.usd_balance && leb_ℤ (pos 0) r.locked_balance

abbrev pub balance_check : BalanceRow → Bool
balance_check r = leb_ℤ (pos 0) r.available && leb_ℤ (pos 0) r.locked

abbrev pub status_check : String → Bool
status_check s =
    str_eq s open_status
    || str_eq s filled
    || str_eq s partially_filled
    || str_eq s cancelled
    || str_eq s closed
    || str_eq s pending

unfoldable pub order_check : OrderRow → Bool
order_check r =
    ltb_ℤ (pos 0) r.quantity
    && leb_ℤ (pos 0) r.price
    && (str_eq r.side buy || str_eq r.side sell)
    && status_check r.status
    && (str_eq r.order_type limit || str_eq r.order_type market)
    && leb_ℤ (pos 0) r.filled_quantity

abbrev pub trade_check : TradeRow → Bool
trade_check r = ltb_ℤ (pos 0) r.quantity && ltb_ℤ (pos 0) r.price
