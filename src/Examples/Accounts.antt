-- ===== src/Examples/Accounts.antt =====
-- Users, sessions and setup at concrete inputs.
use vorn_media_server.Prelude.{
  ◌<◌, true, false, Option, none, some, List, [], ◌∷◌, keep, map, Text, codes, text_eq, length, ◌≡◌,
  refl, ◌⊎◌, arith,
}
use vorn_media_server.Access.{User, Session, Library, Accounts}
use vorn_media_server.Access.Auth.{
  with_client_auth, handle_me, Crypto, Faults, Response, write_error, write_json, no_body,
  all_libraries, authenticate, hash_token, new_session_token, handle_logout,
}
use vorn_media_server.Access.Setup.{
  SetupInitRequest, handle_setup_init, init_first, init_checked, is_setup_complete,
}
use vorn_media_server.Access.Libraries.{handle_list_libraries}
use vorn_media_server.Access.Restore.{Psql, valid_filename}
use vorn_media_server.Access.Router.{
  Request, UserRoute, AdminRoute, Route, OpenRoute, Event, handle_user, handle_admin, run,
}
use vorn_media_server.Access.Guarded.{handle_admin-refuses}
use vorn_media_server.Access.Populated.{run-setup_closed}
use vorn_media_server.Access.Ended.{run-stays_out}
use vorn_media_server.Access.Races.{deletes, deletes-each_other, init_checked-twice, name_and_rank}
use vorn_media_server.Access.Listed.{is_shown, handle_list_libraries-eq}

-- A stand-in for the cryptography that computes.
abbrev plain : Crypto
plain = record {
  generate_from_password = λ salt password. some password;
  compare_hash_and_password = text_eq;
  sum256 = λ t. t;
  encode_to_string = λ t. t;
}

abbrev no_faults : Faults
no_faults = record {
  reads_session = false;
  reads_requester = false;
  counts_users = false;
  reads_user = false;
  writes_session = false;
  writes_user = false;
  writes_admin = false;
  writes_permissions = false;
  writes_library = false;
  lists = false;
  reads_permissions = false;
}

abbrev ann : User
ann = record {
  id = 1;
  username = codes "ann";
  password_hash = codes "ann's word";
  is_admin = true;
  created_at = 0;
}

abbrev bob : User
bob = record {
  id = 2;
  username = codes "bob";
  password_hash = codes "bob's word";
  is_admin = true;
  created_at = 0;
}

abbrev eve : User
eve = record {
  id = 3;
  username = codes "eve";
  password_hash = codes "eve's word";
  is_admin = false;
  created_at = 0;
}

abbrev session : Text → User → Session
session token u = record { token_hash = token; user_id = u.id; expires_at = 100 }

abbrev films : Library
films = record { id = 7; name = codes "Films"; kind = codes "movie"; is_4k = false; folders = [] }

abbrev shows : Library
shows = record { id = 8; name = codes "Shows"; kind = codes "series"; is_4k = false; folders = [] }

abbrev nobody : Accounts
nobody = record {
  users = [];
  sessions = [];
  libraries = [];
  permissions = [];
  next_id = 1;
  now = 10;
}

abbrev two_admins : Accounts
two_admins = record nobody {
  users = ann ∷ bob ∷ [];
  sessions = session (codes "a") ann ∷ session (codes "b") bob ∷ [];
  next_id = 9;
}

abbrev with_eve : Accounts
with_eve = record nobody {
  users = ann ∷ eve ∷ [];
  sessions = session (codes "a") ann ∷ session (codes "e") eve ∷ [];
  libraries = films ∷ shows ∷ [];
  permissions = record { user_id = 3; library_id = 8 } ∷ [];
  next_id = 9;
}

abbrev request : Option Text → Route → Request
request cookie route = record {
  cookie = cookie;
  route = route;
  random = some (codes "fresh");
  salt = 0;
  faults = no_faults;
}

abbrev wizard : Text → SetupInitRequest
wizard name = record {
  admin_username = name;
  admin_password = codes "a long word";
  library_name = [];
  library_type = [];
  library_path = [];
}

handle_admin-refuses_example :
    (handle_admin plain
        (request (some (codes "e")) (Route.admin_route (AdminRoute.delete_user 1)))
        (AdminRoute.delete_user 1)
        with_eve
      ≡ (write_error 401, with_eve))
    ⊎ (handle_admin plain
          (request (some (codes "e")) (Route.admin_route (AdminRoute.delete_user 1)))
          (AdminRoute.delete_user 1)
          with_eve
        ≡ (write_error 403, with_eve))
handle_admin-refuses_example =
    handle_admin-refuses plain
      (request (some (codes "e")) (Route.admin_route (AdminRoute.delete_user 1)))
      (AdminRoute.delete_user 1) with_eve (unfold hash_token in refl)

-- The names of automated backups.
named :
    (valid_filename (codes "vorn-backup-auto-20260131-235959.sql") ≡ true)
    × (valid_filename (codes "../vorn-backup-auto-20260131-235959.sql") ≡ false)
    × (valid_filename (codes "vorn-backup-auto-2026013-235959.sql") ≡ false)
unfolding valid_filename
named = (refl, refl, refl)

-- Ann deletes Bob, whose session is gone before he can delete her, and restores a backup.
abbrev quarrel : List Event
quarrel =
    Event.arrives (request (some (codes "a")) (Route.admin_route (AdminRoute.delete_user 2)))
    ∷ Event.passes 5
    ∷ Event.arrives (request (some (codes "b")) (Route.admin_route (AdminRoute.delete_user 1)))
    ∷ Event.arrives (
        request (some (codes "a"))
          (Route.admin_route (AdminRoute.restore_backup (Psql.leaves with_eve))))
    ∷ []

quarrel_ends :
    map name_and_rank (run plain quarrel two_admins).users
    ≡ (codes "ann", true) ∷ (codes "eve", false) ∷ []
unfolding handle_admin hash_token
quarrel_ends = refl

run-setup_closed_example :
    (0 < length (run plain quarrel two_admins).users)
    × ((handle_setup_init plain no_faults 0
            (some (wizard (codes "eve")))
            (run plain quarrel two_admins)
          ≡ (write_error 409, run plain quarrel two_admins))
        ⊎ (handle_setup_init plain no_faults 0
              (some (wizard (codes "eve")))
              (run plain quarrel two_admins)
            ≡ (write_error 500, run plain quarrel two_admins)))
run-setup_closed_example =
    run-setup_closed plain quarrel no_faults 0 (some (wizard (codes "eve"))) two_admins
      (omega arith) (tt, (tt, (tt, (omega arith, tt))))

abbrev bob_returns : List Event
bob_returns =
    Event.arrives (
      request none (
        Route.open_route (
          OpenRoute.login
            (some (record { username = codes "bob"; password = codes "bob's word" })))))
    ∷ Event.passes 5
    ∷ Event.arrives (
        request (some (codes "a"))
          (Route.admin_route (AdminRoute.restore_backup (Psql.leaves with_eve))))
    ∷ []

abbrev after_logout : Accounts
after_logout = run plain bob_returns (handle_logout plain no_faults (some (codes "b")) two_admins).1

run-stays_out_example :
    (handle_user plain
        (request (some (codes "b")) (Route.user_route UserRoute.me))
        UserRoute.me
        after_logout
      ≡ (write_error 401, after_logout))
    × (handle_admin plain
          (request (some (codes "b")) (Route.user_route UserRoute.me))
          AdminRoute.list_users
          after_logout
        ≡ (write_error 401, after_logout))
    × (with_client_auth plain no_faults (codes "b") handle_me after_logout
        ≡ (write_error 401, after_logout))
run-stays_out_example =
    run-stays_out plain no_faults (codes "b") bob_returns
      (request (some (codes "b")) (Route.user_route UserRoute.me)) UserRoute.me
      AdminRoute.list_users handle_me two_admins refl
      (unfold hash_token new_session_token in ((refl, tt), (tt, ((refl, refl), tt)))) refl

abbrev first_deletion : Response × Accounts
first_deletion =
    deletes no_faults 2 (authenticate plain no_faults (some (codes "a")) two_admins) two_admins

abbrev second_deletion : Response × Accounts
second_deletion =
    deletes no_faults 1 (authenticate plain no_faults (some (codes "b")) two_admins)
      first_deletion.1

deletes-each_other_example :
    (first_deletion.0 ≡ write_json 204 no_body)
    × (second_deletion.0 ≡ write_json 204 no_body)
    × (second_deletion.1.users ≡ [])
    × (handle_setup_init plain no_faults 0 none second_deletion.1
        ≡ init_first plain no_faults 0 none second_deletion.1)
unfolding authenticate hash_token
deletes-each_other_example =
    deletes-each_other plain no_faults no_faults no_faults (some (codes "a")) (some (codes "b")) 0
      none ann bob two_admins refl refl refl refl refl refl refl refl refl

abbrev first_init : Response × Accounts
first_init =
    init_checked plain no_faults 0 (some (wizard (codes "ann")))
      (is_setup_complete no_faults nobody) nobody

abbrev second_init : Response × Accounts
second_init =
    init_checked plain no_faults 0 (some (wizard (codes "eve")))
      (is_setup_complete no_faults nobody) first_init.1

init_checked-twice_example :
    (first_init.0.status ≡ 201)
    × (second_init.0.status ≡ 201)
    × (map name_and_rank second_init.1.users ≡ (codes "ann", true) ∷ (codes "eve", true) ∷ [])
init_checked-twice_example =
    init_checked-twice plain no_faults no_faults 0 0 (wizard (codes "ann")) (wizard (codes "eve"))
      (codes "a long word") (codes "a long word") nobody refl (refl, refl) (refl, refl) refl refl
      refl refl refl refl refl

handle_list_libraries-eq_example : handle_list_libraries no_faults eve with_eve ≡ (
  write_json 200 (all_libraries (keep (is_shown no_faults eve with_eve) (films ∷ shows ∷ []))),
  with_eve,
)
handle_list_libraries-eq_example = handle_list_libraries-eq no_faults eve with_eve refl refl

eve_sees :
    handle_list_libraries no_faults eve with_eve
    ≡ (write_json 200 (all_libraries (shows ∷ [])), with_eve)
unfolding handle_list_libraries
eve_sees = refl
