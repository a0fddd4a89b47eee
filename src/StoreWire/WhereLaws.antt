-- ===== src/StoreWire/WhereLaws.antt =====
-- A filter that was encoded passes what was asked for, whatever the comparisons of the server are.
use zyncbase.Prelude.Result.{Result}
use zyncbase.Prelude.Text.{Text}
