-- ===== src/Queries/Assets.antt =====
-- db/queries/balance.go: `InitializeBalance`, `CreateAsset`, `InactivateAsset`, `GetActiveAssets`.
use cex_go.Prelude.{ℕ, String, Bool, ◌&&◌, ◌==◌, str_eq, true, false, List, map}
use cex_go.Prelude.Int.{pos}
use cex_go.Models.{CreateAssetRequest, whole}
use cex_go.Database.{Db, BalanceRow, AssetRow, Tx, ◌>>◌, pure, balance_check}
use cex_go.Database.Statement.{exec_insert, exec_update, exists}
use cex_go.Database.Listing.{select_all, query_rows}
use cex_go.Queries.Balance.{usd, of_user, of_symbol, put_balances}

abbrev pub put_assets : Db → List AssetRow → Db
put_assets db rows = record db { assets = rows }

-- PRIMARY KEY (user_id, asset)
abbrev pub same_balance_key : BalanceRow → BalanceRow → Bool
same_balance_key r q = q.user_id == r.user_id && str_eq q.asset r.asset

-- The references of a balance to its user and its asset
abbrev pub balance_known : BalanceRow → Db → Bool
balance_known r db = exists (of_user r.user_id) db.users && exists (of_symbol r.asset) db.assets

abbrev pub initial_row : ℕ → BalanceRow
initial_row user = record { user_id = user; asset = usd; available = whole 500; locked = pos 0 }

unfoldable pub initialize_balance : ℕ → Tx (Unit {0})
unfolding exec_insert
initialize_balance user =
    exec_insert (λ db. db.balances) put_balances (λ _. initial_row user) balance_check
      same_balance_key balance_known
    >> pure tt

abbrev pub new_asset_row : CreateAssetRequest → AssetRow
new_asset_row req = record {
  symbol = req.symbol;
  name = req.name;
  is_active = true;
  icon_url = req.icon_url;
}

-- PRIMARY KEY (symbol)
abbrev pub same_symbol : AssetRow → AssetRow → Bool
same_symbol r q = str_eq q.symbol r.symbol

unfoldable pub create_asset : CreateAssetRequest → Tx (Unit {0})
unfolding exec_insert
create_asset req =
    exec_insert (λ db. db.assets) put_assets (λ _. new_asset_row req) (λ _. true) same_symbol
      (λ _ _. true)
    >> pure tt

unfoldable pub inactivate_asset : String → Tx (Unit {0})
unfolding exec_update
inactivate_asset symbol =
    exec_update (λ db. db.assets) put_assets (of_symbol symbol)
      (λ r. record r { is_active = false }) λ _. true

unfoldable pub get_active_assets : Tx (List String)
unfolding query_rows
get_active_assets = query_rows λ db. map (λ r. r.symbol) (select_all (λ r. r.is_active) db.assets)
