-- ===== src/Mgr/Passwords.antt =====
-- ChangePanelPassword, ResetPanelPassword, ResetRootPassword and the script of Provision
-- (src/internal/mgr/mgr.go). What pw.Hash makes of a password, the generated passwords and the
-- random hostname are arguments.
use lxc_hosting.Base.{Bool, true, false, [], Text, Option, none, some}
use lxc_hosting.Db.{User, DbResult}
use lxc_hosting.Db
use lxc_hosting.Db.Users.{get_user_by_name, update_password}
use lxc_hosting.Db.Sessions.{delete_sessions_for_user_except}
use lxc_hosting.Host.{Calls}
use lxc_hosting.Mgr.{Config, State, Done, ok, err, db_error, bad_password, call_failed}
use lxc_hosting.Mgr.Scripts.{provision_script}
use lxc_hosting.Mgr.Accounts.{image_name}

module _ {S : Type 0} (hash : Text → Option Text) where
  abbrev pub with_hash : State S → User → Text → Option Text → Done × State S
  with_hash m u keep none = (err bad_password, m)
  with_hash m u keep (some pass_hash) = (
    ok tt,
    record m {
      db = delete_sessions_for_user_except (update_password m.db u.id pass_hash) u.id keep;
    },
  )

  abbrev pub password_of_user : State S → Text → Text → DbResult User → Done × State S
  password_of_user m pass keep (Db.err e) = (err (db_error e), m)
  password_of_user m pass keep (Db.ok u) = with_hash m u keep (hash pass)

  -- ChangePanelPassword; `keep` is the token whose session stays, empty for none.
  unfoldable pub change_panel_password : State S → Text → Text → Text → Done × State S
  change_panel_password m name pass keep = password_of_user m pass keep (get_user_by_name m.db name)

  abbrev reset_found : State S → Text → DbResult User → Done × State S
  reset_found m pass (Db.err e) = (err (db_error e), m)
  reset_found m pass (Db.ok u) = change_panel_password m u.name pass []

  -- ResetPanelPassword, with the password that it generates
  unfoldable pub reset_panel_password : State S → Text → Text → Done × State S
  unfolding change_panel_password
  reset_panel_password m name pass = reset_found m pass (get_user_by_name m.db name)

module _ {S : Type 0} (h : Calls S) (cfg : Config) where
  abbrev provisioned : State S → Bool × S → Done × State S
  provisioned m (true, s) = (ok tt, record m { sys = s })
  provisioned m (false, s) = (err call_failed, record m { sys = s })

  abbrev root_reset_found : State S → Text → Text → DbResult User → Done × State S
  root_reset_found m host pass (Db.err e) = (err (db_error e), m)
  root_reset_found m host pass (Db.ok u) =
      let r = image_name h cfg m.sys in
      provisioned m (h.exec_sh u.name (provision_script host r.0 pass) r.1)

  -- ResetRootPassword, with the hostname and the password that it draws
  unfoldable pub reset_root_password : State S → Text → Text → Text → Done × State S
  reset_root_password m name host pass = root_reset_found m host pass (get_user_by_name m.db name)
