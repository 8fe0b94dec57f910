-- ===== src/Access/Restore.antt =====
-- The restoring of backups, backend/internal/httpapi/admin_backup.go and admin_backups.go, and
-- ValidFilename of backend/internal/backup/backup.go.
use vorn_media_server.Prelude.{
  Bool, true, false, ◌&&◌, [], ◌∷◌, Text, codes, ◌==◌, if◌then◌else◌, is_digit,
}
use vorn_media_server.Access.{Accounts}
use vorn_media_server.Access.Auth.{Response, write_error, write_json, no_body}

-- What comes of psql: it is not installed, it fails, or it leaves the tables of the backup, whose
-- clock is not read.
pub data Psql : Type 0 where
  not_installed refused : Psql
  leaves : Accounts → Psql

-- restoreFrom runs the whole backup in one transaction.
abbrev pub restore : Accounts → Accounts → Accounts
restore backup s = record backup { now = s.now }

-- Without the restart that follows, which keeps the tables. The message of the answer is left out.
unfoldable pub handle_restore_backup : Psql → Accounts → Response × Accounts
handle_restore_backup not_installed s = (write_error 503, s)
handle_restore_backup refused s = (write_error 400, s)
handle_restore_backup (leaves backup) s = (write_json 200 no_body, restore backup s)

-- A # of the shape stands for a digit.
abbrev pub has_shape : Text → Text → Bool
has_shape [] [] = true
has_shape [] (c ∷ t) = false
has_shape (p ∷ ps) [] = false
has_shape (p ∷ ps) (c ∷ t) = (if p == b'#' then is_digit c else p == c) && has_shape ps t

unfoldable pub valid_filename : Text → Bool
valid_filename name = has_shape (codes "vorn-backup-auto-########-######.sql") name

-- `opened` says that the file can be opened.
abbrev pub restore_opened : Bool → Psql → Accounts → Response × Accounts
restore_opened opened not_installed s = (write_error 503, s)
restore_opened opened refused s = (write_error (if opened then 400 else 404), s)
restore_opened opened (leaves backup) s =
    if opened then handle_restore_backup (leaves backup) s else (write_error 404, s)

unfoldable pub handle_restore_auto_backup : Text → Bool → Psql → Accounts → Response × Accounts
unfolding valid_filename handle_restore_backup
handle_restore_auto_backup filename opened psql s =
    if valid_filename filename then restore_opened opened psql s else (write_error 400, s)
