-- ===== src/Accounts/Tests.antt =====
-- An investor without a broker is placed with the default one.
use pine_backend.Base.{◌≡◌, refl, true}
use pine_backend.Decimals.{ten_thousandths}
use pine_backend.Store.Example.{a_db}
use pine_backend.Accounts.{ensure_broker}

placed : (ensure_broker 1 a_db).0 ≡ true
unfolding ensure_broker
placed = refl
