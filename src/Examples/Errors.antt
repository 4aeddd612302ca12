-- ===== src/Examples/Errors.antt =====
-- An error of the database, as internal/core/errors answers it.
use cyandie_backend.Common.{◌≤◌, false, ◌≡◌, ◌≢◌}
use cyandie_backend.Core.Errors.{AppError, app, database, new, err_internal, write_app_error}
use cyandie_backend.Core.Errors.Responses.{write_app_error_lem}

write_app_error_lem_example :
    let r = write_app_error "r1" database in
    (400 ≤ r.status)
    × (r.status ≤ 503)
    × (r.is_ok ≡ false)
    × (((a : AppError) → database ≢ app a) → r.error ≡ new err_internal "internal error")
write_app_error_lem_example = write_app_error_lem "r1" database
