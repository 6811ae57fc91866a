-- ===== src/Error/Tests.antt =====
-- The theorems on the tables of src/uvhttp_error.c, at single errors.
use uvhttp.Prelude.{true, ◌≡◌, refl}
use uvhttp.Error.{log_write}
use uvhttp.Error.Table.{is_recoverable}

log_write_recovers : is_recoverable log_write ≡ true
unfolding is_recoverable
log_write_recovers = refl
