-- ===== src/Examples/Money.antt =====
-- The wallet's theorems at concrete inputs.
use gift_hub.Prelude.{ℕ, ◌≡◌, refl, Option, some, List, [], ◌∷◌, arith}
use gift_hub.Prelude.Int.{ℤ, pos, negsuc, ◌+ℤ◌, ◌-ℤ◌, neg}
use gift_hub.Prelude.Texts.{show}
use gift_hub.Models.{User, WalletTransaction}
use gift_hub.Session.{Session, ok, commit}
use gift_hub.Wallet.{
  Entry, get_user_locked, same_reference, row_valid, ledger_valid, ledger_row, book, credit_balance,
  debit_balance, adjust_balance_admin, log_adjustment, adjustment,
}
use gift_hub.Wallet.Ledger.{IsSound}
use gift_hub.Wallet.Moves.{IsSoundSession, WalletCall, calls, calls-IsSound}
use gift_hub.Wallet.Once.{HasReference, IsRaised, booked_once}
use gift_hub.Wallet.Adjust.{adjusts_once}
use gift_hub.Wallet.Accounts.{
  Move, credit, debit, moves, balances, moves_spec, AllAllowed, moves_refine,
}
use gift_hub.Examples.{buyer, shop, start, top_up}

-- What the accounts held before the ledger was begun.
abbrev opening : ℕ → ℤ
opening i = pos 1000

shop-IsSound : IsSound opening shop
unfolding ◌+ℤ◌
shop-IsSound = record {
  accounts = (record { nonneg = omega arith; balanced = refl }, tt);
  rows = tt;
  distinct = tt;
}

abbrev day : List WalletCall
day =
    WalletCall.credit 7 (pos 500) top_up
    ∷ WalletCall.commit_
    ∷ WalletCall.credit 7 (pos 500) top_up
    ∷ WalletCall.debit 7 (pos 9000) top_up
    ∷ WalletCall.adjust 1 7 (negsuc 299) "correction"
    ∷ WalletCall.rollback_
    ∷ []

calls-IsSound_example : IsSoundSession opening (calls day start)
calls-IsSound_example =
    calls-IsSound opening day start (record { now = shop-IsSound; committed = shop-IsSound })

abbrev credited : User × WalletTransaction
credited =
    (record buyer { balance = pos 1500 }, ledger_row 7 (pos 500) (pos 1000) (pos 1500) top_up)

abbrev topped_up : Session
topped_up = (credit_balance 7 (pos 500) top_up start).1

topping_up : credit_balance 7 (pos 500) top_up start ≡ (ok credited, topped_up)
unfolding credit_balance get_user_locked book ledger_valid row_valid same_reference ◌+ℤ◌
topping_up = refl

top_up-HasReference : HasReference top_up
top_up-HasReference = record {
  kind = "payment";
  ident = "click:42";
  type_eq = refl;
  id_eq = refl;
  nonempty = refl;
}

booked_once_example :
    let later = calls day (commit topped_up).1 in
    IsRaised (credit_balance 8 (pos 100) top_up later).0
    × IsRaised (debit_balance 8 (pos 100) top_up later).0
booked_once_example =
    booked_once top_up 7 (pos 500) start topped_up credited day 8 (pos 100) top_up-HasReference
      topping_up

abbrev adjusted : User × Option WalletTransaction
adjusted = (
  record buyer { balance = pos 1200 },
  some (ledger_row 7 (pos 200) (pos 1000) (pos 1200) (adjustment "1")),
)

abbrev after_adjusting : Session
after_adjusting = (adjust_balance_admin 1 7 (pos 200) "gift" start).1

adjusting : adjust_balance_admin 1 7 (pos 200) "gift" start ≡ (ok adjusted, after_adjusting)
unfolding adjust_balance_admin log_adjustment credit_balance get_user_locked book ledger_valid
    row_valid same_reference ◌+ℤ◌ show
adjusting = refl

adjusts_once_example :
    IsRaised (adjust_balance_admin 1 9 (negsuc 99) "fee" (calls day (commit after_adjusting).1)).0
adjusts_once_example =
    adjusts_once 1 7 9 (pos 200) (negsuc 99) "gift" "fee" start after_adjusting adjusted day refl
      refl adjusting

abbrev gift_entry : Entry
gift_entry = record {
  tx_type = "purchase";
  reference_type = some "order";
  reference_id = some "GH-1";
}

abbrev shopping : List Move
shopping = credit 7 (pos 500) top_up ∷ debit 7 (pos 300) gift_entry ∷ []

abbrev after_shopping : Session
after_shopping = (moves shopping start).1

going_through : moves shopping start ≡ (ok tt, after_shopping)
unfolding moves credit_balance debit_balance ◌+ℤ◌ neg ◌-ℤ◌
going_through = refl

moves_refine_example :
    AllAllowed shopping (balances start)
    × (balances after_shopping ≡ moves_spec shopping (balances start))
moves_refine_example = moves_refine shopping start after_shopping going_through
