-- ===== src/Controllers/Exchange/Administered.antt =====
-- What the registration of a user, the listing of assets and of markets keep of the tables.
use cex_go.Prelude.{
  refl, ℕ, String, Bool, ◌≡◌, true, false, Option, none, some, List, [], ◌∷◌, ◌++◌, inl, inr,
}
use cex_go.Models.{Market, CreateAssetRequest, CreateMarketRequest, UserRegistrationRequest}
use cex_go.Auth.{hash_password}
use cex_go.Database.{Db, AssetRow, Session, Result, Tick, ok, err, ◌>>=◌, pure, user_check}
use cex_go.Database.Table.{update}
use cex_go.Database.Statement.{exec_insert}
use cex_go.Database.Ensures.{Ensures-mono, exec_insert-Ensures, exec_update-Ensures}
use cex_go.Database.Atomic.{kept_or, exec_insert-KeptOnError, exec_update-KeptOnError}
use cex_go.Queries.Balance.{of_symbol, put_users}
use cex_go.Queries.Kept.{IsStored}
use cex_go.Queries.Order.{put_markets}
use cex_go.Queries.Assets
use cex_go.Queries.Assets.{put_assets, new_asset_row, same_symbol}
use cex_go.Queries.Markets
use cex_go.Queries.Markets.{new_market_row, market_check, same_market_key, market_known}
use cex_go.Queries.Users.{new_user_row, same_user_key, create_user, get_user_by_email}
use cex_go.Queries.Users.Found.{get_user_by_email-keeps}
use cex_go.Controllers.Handlers.{done, answer, after}
use cex_go.Controllers.Users.{register_user, create_hashed, looked_up}
use cex_go.Controllers.Assets.{create_asset, inactivate_asset}
use cex_go.Controllers.Markets.{create_market}

-- What follows a call and leaves the session as it is
pure_after :
    {A B : Type 0} (r : Result A × Session) (f : A → B) (P : Db → Type 0)
    → P r.1.db
    → P (((λ _. r) >>= λ a. pure (f a)) r.1).1.db
pure_after (ok a, s) f P h = h
pure_after (err _, s) f P h = h

done_after :
    {A B : Type 0} (status : ℕ) (r : Result A × Session) (f : A → B) (P : Db → Type 0)
    → P r.1.db
    → P (after (answer status (λ _. r) r.1) λ a s. (done (f a), s)).1.db
done_after status (ok a, s) f P h = h
done_after status (err _, s) f P h = h

module _ (P : Db → Type 0) (stored : IsStored P) where
  -- An INSERT whose row keeps the property
  module _ {R : Type 0} (get : Db → List R) (put : Db → List R → Db) (make : Tick → R)
      (check : R → Bool) (clash : R → R → Bool) (known : R → Db → Bool) where
    inserted-keeps :
        (s : Session)
        → P s.db
        → ((t : Tick) → check (make t) ≡ true → P (put s.db (get s.db ++ (make t ∷ []))))
        → P (exec_insert get put make check clash known s).1.db
    inserted-keeps s v h =
        kept_or P s.db (exec_insert get put make check clash known s) v
          (exec_insert-KeptOnError get put make check clash known s)
          (Ensures-mono _ (λ _ db. P db) _ (exec_insert-Ensures get put make check clash known s)
            λ row db (t, e, c, _, d). rw d (rw e (h t (rw (← e) c))))

  create_user-keeps :
      (email hash : String) (s : Session) → P s.db → P (create_user email hash s).1.db
  unfolding create_user
  create_user-keeps email hash s v =
      pure_after
        (exec_insert (λ db. db.users) put_users (new_user_row email hash) user_check same_user_key
          (λ _ _. true) s)
        (λ row. row.id) P
        (inserted-keeps (λ db. db.users) put_users (new_user_row email hash) user_check
          same_user_key (λ _ _. true) s v
          λ t c. stored.adds_user s.db (new_user_row email hash t) c refl refl v)

  create_hashed-keeps :
      (email : String) (hash : Option String) (s : Session)
      → P s.db
      → P (create_hashed email hash s).1.db
  create_hashed-keeps email none s v = v
  create_hashed-keeps email (some hash) s v =
      done_after 500 (create_user email hash s) (λ id. (id, email)) P
        (create_user-keeps email hash s v)

  looked_up-keeps :
      (req : UserRegistrationRequest) (r : Result (ℕ × String) × Session)
      → P r.1.db
      → P (looked_up req r).1.db
  looked_up-keeps req (ok _, s) v = v
  looked_up-keeps req (err _, s) v = create_hashed-keeps req.email (hash_password req.password) s v

  pub register_user-keeps :
      (req : Option UserRegistrationRequest) (s : Session) → P s.db → P (register_user req s).1.db
  unfolding register_user
  register_user-keeps none s v = v
  register_user-keeps (some req) s v =
      looked_up-keeps req (get_user_by_email req.email s)
        (rw (get_user_by_email-keeps req.email s) v)

  pub create_asset-keeps :
      (req : Option CreateAssetRequest) (s : Session) → P s.db → P (create_asset req s).1.db
  unfolding create_asset Assets.create_asset
  create_asset-keeps none s v = v
  create_asset-keeps (some req) s v =
      let insert =
        exec_insert (λ db. db.assets) put_assets (λ _. new_asset_row req) (λ _. true) same_symbol
          (λ _ _. true) in
      done_after 500 (Assets.create_asset req s) (λ _. req.symbol) P
        (pure_after (insert s) (λ _. tt) P
          (inserted-keeps (λ db. db.assets) put_assets (λ _. new_asset_row req) (λ _. true)
            same_symbol (λ _ _. true) s v
            λ _ _. stored.stores_assets s.db (s.db.assets ++ (new_asset_row req ∷ [])) v))

  pub inactivate_asset-keeps :
      (symbol : String) (s : Session) → P s.db → P (inactivate_asset symbol s).1.db
  unfolding inactivate_asset Assets.inactivate_asset
  inactivate_asset-keeps symbol s v =
      let f : AssetRow → AssetRow = λ r. record r { is_active = false } in
      done_after 500 (Assets.inactivate_asset symbol s) (λ _. symbol) P
        (kept_or P s.db (Assets.inactivate_asset symbol s) v
          (exec_update-KeptOnError (λ db. db.assets) put_assets (of_symbol symbol) f (λ _. true) s)
          (Ensures-mono _ (λ _ db. P db) _
            (exec_update-Ensures (λ db. db.assets) put_assets (of_symbol symbol) f (λ _. true) s)
            λ _ db u. elim u [
              | inl (_, e) ↦ rw e v
              | inr (_, _, _, e) ↦
                  rw e (stored.stores_assets s.db (update (of_symbol symbol) f s.db.assets) v)
            ]))

  pub create_market-keeps :
      (req : Option CreateMarketRequest) (s : Session) → P s.db → P (create_market req s).1.db
  unfolding create_market Markets.create_market
  create_market-keeps none s v = v
  create_market-keeps (some req) s v =
      let make : Tick → Market =
        new_market_row req.name req.base_asset req.quote_asset req.min_order_size req.max_order_size
          req.taker_fee req.maker_fee in
      done_after 500
        (Markets.create_market req.name req.base_asset req.quote_asset req.min_order_size
          req.max_order_size req.taker_fee req.maker_fee s)
        (λ id. (id, req.name)) P
        (pure_after
          (exec_insert (λ db. db.markets) put_markets make market_check same_market_key market_known
            s)
          (λ row. row.id) P
          (inserted-keeps (λ db. db.markets) put_markets make market_check same_market_key
            market_known s v λ t _. stored.stores_markets s.db (s.db.markets ++ (make t ∷ [])) v))
