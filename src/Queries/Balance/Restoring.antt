-- ===== src/Queries/Balance/Restoring.antt =====
-- Locking an amount and unlocking it again, on the ledger of accounts.
use cex_go.Prelude.{
  ℕ, String, Bool, Bool-cases, ◌==◌, ◌&&◌, str_eq, eq_refl, eq_iff, ◌≡◌, refl, sym, ap, ◌∙◌, true,
  false, none, some, if◌then◌else◌, inl, inr, arith,
}
use cex_go.Prelude.Int.{ℤ, ◌+ℤ◌, ◌-ℤ◌, ltb_ℤ, int_laws}
use cex_go.Database.{Db}
use cex_go.Queries.Balance.Ledger.{Account, Ledger, ledger_of, with_account}
use cex_go.Queries.Balance.Steps.{IsStep}
use cex_go.Queries.Balance.Refinement.{locking, unlocking}

give_back : (x n : ℤ) → ((x -ℤ n) +ℤ n ≡ x) × ((x +ℤ n) -ℤ n ≡ x)
give_back x n = (omega int_laws, omega int_laws)

granted_value : (short : Bool) (x y : Account) → (if short then none else some x) ≡ some y → x ≡ y
granted_value true x y e = absurd (cc e)
granted_value false x y e = cc e

account_path : (a b : Account) → a.available ≡ b.available → a.locked ≡ b.locked → a ≡ b
account_path a b e f = λ i. record { available = e i; locked = f i }

unlocking-locking :
    (n : ℤ) (a b c : Account) → locking n a ≡ some b → unlocking n b ≡ some c → c ≡ a
unlocking-locking n a b c h k =
    let locked : Account = record { available = a.available -ℤ n; locked = a.locked +ℤ n } in
    let unlocked : Account = record { available = b.available +ℤ n; locked = b.locked -ℤ n } in
    let p : locked ≡ b = granted_value (ltb_ℤ a.available n) locked b h in
    let q : unlocked ≡ c = granted_value (ltb_ℤ b.locked n) unlocked c k in
    let back =
      account_path (record { available = (a.available -ℤ n) +ℤ n; locked = (a.locked +ℤ n) -ℤ n }) a
        (give_back a.available n).0 (give_back a.locked n).1 in
    sym q
    ∙ ap (λ (x : Account). record { available = x.available +ℤ n; locked = x.locked -ℤ n }) (sym p)
    ∙ back

-- The databases have the same users and balances.
abbrev pub SameAccounts : Db → Db → Type 0
SameAccounts before after = (after.users ≡ before.users) × (after.balances ≡ before.balances)

same-ledger :
    (before after : Db) (user : ℕ) (asset : String)
    → SameAccounts before after
    → ledger_of after user asset ≡ ledger_of before user asset
same-ledger before after user asset (u, b) = rw (u, b) refl

with_account_self :
    (user : ℕ) (asset : String) (b : Account) (ledger : Ledger)
    → with_account user asset b ledger user asset ≡ some b
with_account_self user asset b ledger = rw (eq_refl asset) (ground arith)

with_account_twice :
    (user other : ℕ) (asset coin : String) (a b : Account) (ledger : Ledger)
    → ledger user asset ≡ some a
    → with_account user asset a (with_account user asset b ledger) other coin ≡ ledger other coin
with_account_twice user other asset coin a b ledger e =
    elim (Bool-cases ((user == other) && str_eq asset coin)) [
      | inr h ↦ rw h refl
      | inl h ↦
          let id : user ≡ other = ground (arith, h) in
          let name : asset ≡ coin = (eq_iff asset coin).0 (ground (arith, h)) in
          rw h (sym e ∙ ap (λ u. ledger u asset) id ∙ ap (ledger other) name)
    ]

-- The same for ledgers: `before`, locked, with the same accounts, and unlocked
restored :
    (n : ℤ) (user other : ℕ) (asset coin : String) (before locked same unlocked : Ledger)
    (a b b' x c : Account)
    → before user asset ≡ some a
    → locking n a ≡ some b
    → locked user asset ≡ with_account user asset b before user asset
    → locked other coin ≡ with_account user asset b' before other coin
    → ((u : ℕ) (s : String) → same u s ≡ locked u s)
    → same user asset ≡ some x
    → unlocking n x ≡ some c
    → unlocked other coin ≡ with_account user asset c same other coin
    → unlocked other coin ≡ before other coin
restored n user other asset coin before locked same unlocked a b b' x c e h l l' k f g m =
    let found : some b ≡ some x =
      sym (with_account_self user asset b before) ∙ sym l ∙ sym (k user asset) ∙ f in
    let value : b ≡ x = cc found in
    let back : c ≡ a = unlocking-locking n a b c h (rw value g) in
    m
    ∙ ap (λ y. if (user == other) && str_eq asset coin then some c else y) (k other coin ∙ l')
    ∙ ap (λ y. with_account user asset y (with_account user asset b' before) other coin) back
    ∙ with_account_twice user other asset coin a b' before e

-- An account that is locked, and unlocked again in a database with the same accounts, seen at one account
-- of the ledger
pub locked-unlocked :
    (n : ℤ) (user other : ℕ) (asset coin : String) (d₀ d₁ d₂ d₃ : Db)
    → IsStep (locking n) user asset other coin d₀ d₁
    → IsStep (locking n) user asset user asset d₀ d₁
    → SameAccounts d₁ d₂
    → IsStep (unlocking n) user asset other coin d₂ d₃
    → ledger_of d₃ other coin ≡ ledger_of d₀ other coin
locked-unlocked n user other asset coin d₀ d₁ d₂ d₃ (a, b, e, h, l) (a', b', e', h', l') same
      (x, c, f, k, m) =
    restored n user other asset coin (ledger_of d₀) (ledger_of d₁) (ledger_of d₂) (ledger_of d₃) a'
      b' b x c e' h' l' l (λ u s. same-ledger d₁ d₂ u s same) f k m
