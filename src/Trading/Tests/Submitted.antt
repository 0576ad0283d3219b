-- ===== src/Trading/Tests/Submitted.antt =====
-- A purchase submitted from DRAFT.
use pine_backend.Base.{ℕ, refl, Bool, some, none, true, false, ℤ, pos, ◌∷◌}
use pine_backend.Decimals.{ten_thousandths}
use pine_backend.Store.Keys.{client}
use pine_backend.Store.Rows.{Db, market}
use pine_backend.Store.Example.{a_db, an_order}
use pine_backend.Trading.Lifecycle.{draft}
use pine_backend.Trading.Fees.{buy, ResolvedFeePolicy, default_policy}
use pine_backend.Trading.Orders.{OrderRequest}
use pine_backend.Trading.Submission.{submit_draft}
use pine_backend.Trading.Submission.Ends.{AfterSubmission, submit_draft-AfterSubmission}

abbrev free_policy : ResolvedFeePolicy
free_policy = record default_policy { commission_enabled = false }

abbrev unblocked : ℕ → ℕ → ℤ → Db → Bool
unblocked u s g db = false

abbrev a_request : ℕ → OrderRequest
a_request key = record {
  user_id = 1;
  stock_symbol = 7;
  side = buy;
  type = market;
  quantity = pos 20_000;
  limit_price = none;
  idempotency_key = some (client key);
}

abbrev draft_db : Db
draft_db = record a_db { orders = an_order 33 buy draft 20_000 ∷ a_db.orders }

submit_draft-AfterSubmission_example :
    AfterSubmission 1 buy (an_order 33 buy draft 20_000) draft_db (
      submit_draft free_policy unblocked 0 0
        (a_request 33)
        true
        (an_order 33 buy draft 20_000)
        draft_db)
submit_draft-AfterSubmission_example =
    submit_draft-AfterSubmission free_policy unblocked 0 0 (a_request 33) true
      (an_order 33 buy draft 20_000) draft_db refl refl refl
