-- ===== src/Panels/AdminPanel/Accounts.antt =====
-- The admin's handlers for users (src/internal/admin/handlers.go): handleUserAdd, handleUserDel,
-- handleUserQuota, handlePower and handleResetPanelPass.
use lxc_hosting.Base.{
  ℕ, List, [], ◌∷◌, ◌++◌, if◌then◌else◌, Text, text_eq, codes, Option, none, some,
}
use lxc_hosting.Std.Int64.{int_lt}
use lxc_hosting.Std.Strconv.{Atoi, atoi}
use lxc_hosting.Quota.Cpu.{CpuError, CpuResult, parse_cpu}
use lxc_hosting.Quota.Cpu
use lxc_hosting.Quota.Throttle.{parse_traffic_gb}
use lxc_hosting.Quota.Sizes.{parse_mem}
use lxc_hosting.Db.{User}
use lxc_hosting.Host.Files.{concat}
use lxc_hosting.Mgr.{State, MgrError, Outcome, Done, ok, err, cpu_error, bad_memory, bad_traffic}
use lxc_hosting.Mgr.Accounts.{AddOptions, add, del}
use lxc_hosting.Mgr.Quotas.{update_quotas_and_traffic, power}
use lxc_hosting.Mgr.Passwords.{reset_panel_password}
use lxc_hosting.Panels.{HttpRequest, Fresh, Site, Answer, form_value, with_form, error_text}
use lxc_hosting.Panels.AdminPanel.{
  AdminState, Handler, say, home, redirect_modal, failed_with, logged, prefix,
}

-- What is wrong with the quotas of a form; a bad disk has its own text.
pub data FormError : Type 0 where
  of_manager : MgrError → FormError
  bad_disk_text : FormError

pub data Quotas : Type 0 where
  accepted : AddOptions → Quotas
  rejected : FormError → Quotas

-- The manager treats all values that are not positive alike, and its operations stand on 0 for them.
abbrev pub or_zero : ℕ → ℕ
or_zero n = if int_lt 0 n then n else 0

abbrev with_traffic : ℕ → ℕ → ℕ → Option ℕ → Quotas
with_traffic cpu mem disk none = rejected (of_manager bad_traffic)
with_traffic cpu mem disk (some gb) =
    accepted (record { cpu = cpu; mem_mb = mem; disk_gb = disk; traffic_gb = gb })

abbrev with_disk : ℕ → ℕ → Atoi → Option ℕ → Quotas
with_disk cpu mem disk traffic =
    if disk.failed
    then rejected bad_disk_text
    else with_traffic cpu mem (or_zero disk.number) traffic

abbrev with_mem : ℕ → Option ℕ → Atoi → Option ℕ → Quotas
with_mem cpu none disk traffic = rejected (of_manager bad_memory)
with_mem cpu (some mem) disk traffic = with_disk cpu mem disk traffic

abbrev with_cpu : CpuResult ℕ → Option ℕ → Atoi → Option ℕ → Quotas
with_cpu (Cpu.err e) mem disk traffic = rejected (of_manager (cpu_error e))
with_cpu (Cpu.ok cpu) mem disk traffic = with_mem (or_zero cpu) mem disk traffic

-- the CPU, the memory, the disk and the traffic of a form, the first error first
unfoldable pub form_quotas : List (Text × Text) → Quotas
form_quotas form =
    with_cpu (parse_cpu (form_value form (codes "cpu"))) (parse_mem (form_value form (codes "mem")))
      (atoi (form_value form (codes "disk"))) (parse_traffic_gb (form_value form (codes "traffic")))

module _ {S : Type 0} (site : Site S) where
  abbrev pub refused : HttpRequest → Fresh → AdminState S → FormError → Answer × AdminState S
  refused r x p (of_manager e) = failed_with site r x p e p.mgr
  refused r x p bad_disk_text =
      home site r x p (error_text (say site r (codes "err_invalid_disk") []))

  abbrev after_add :
      HttpRequest → Fresh → AdminState S → Outcome User × State S → Answer × AdminState S
  after_add r x p (err e, m) = failed_with site r x p e m
  after_add r x p (ok u, m) =
      redirect_modal site r x (record p { mgr = m }) (prefix site)
        (concat (
          codes "user:      "
          ∷ u.name
          ∷ codes "\npassword:  "
          ∷ x.draws.pass
          ∷ codes "\npanel:     "
          ∷ site.panel_url (b'/' ∷ site.url_path)
          ∷ []))

  abbrev pub add_with : HttpRequest → Fresh → AdminState S → Text → Quotas → Answer × AdminState S
  add_with r x p name (rejected e) = refused r x p e
  add_with r x p name (accepted opt) =
      after_add r x p (add site.calls site.cfg p.mgr name opt x.draws)

  unfoldable pub handle_user_add : Handler S
  unfolding form_quotas
  handle_user_add r x p =
      with_form r.form p λ form. add_with r x p (form_value form (codes "name")) (form_quotas form)

  -- an operation that says a fixed text on success
  abbrev pub after_change :
      HttpRequest → Fresh → AdminState S → Text → Done × State S → Answer × AdminState S
  after_change r x p msg (err e, m) = failed_with site r x p e m
  after_change r x p msg (ok _, m) = home site r x (record p { mgr = m }) msg

  unfoldable pub handle_user_del : Handler S
  handle_user_del r x p = with_form r.form p λ form.
      let name = form_value form (codes "name") in
      if text_eq (form_value form (codes "confirm")) (codes "1")
      then after_change r x p (say site r (codes "user_deleted") (name ∷ []))
          (del site.calls site.cfg p.mgr name)
      else home site r x p (codes "error: please confirm deletion")

  abbrev pub quota_with : HttpRequest → Fresh → AdminState S → Text → Quotas → Answer × AdminState S
  quota_with r x p name (rejected e) = refused r x p e
  quota_with r x p name (accepted opt) =
      after_change r x p (say site r (codes "quota_updated") (name ∷ [])) (
        update_quotas_and_traffic site.calls p.mgr name opt.cpu opt.mem_mb opt.disk_gb
          (some opt.traffic_gb))

  unfoldable pub handle_user_quota : Handler S
  unfolding form_quotas
  handle_user_quota r x p =
      with_form r.form p
        λ form. quota_with r x p (form_value form (codes "name")) (form_quotas form)

  abbrev after_power :
      HttpRequest → Fresh → AdminState S → Text → Text → Done × State S → Answer × AdminState S
  after_power r x p name action (err e, m) = failed_with site r x p e m
  after_power r x p name action (ok _, m) =
      home site r x (record p { mgr = logged site m name (codes "power." ++ action) x.stamp })
        (say site r (codes "power_ok") (name ∷ action ∷ []))

  unfoldable pub handle_power : Handler S
  handle_power r x p = with_form r.form p λ form.
      let name = form_value form (codes "name") in
      let action = form_value form (codes "action") in
      after_power r x p name action (power site.calls p.mgr name action)

  abbrev after_reset :
      HttpRequest → Fresh → AdminState S → Text → Done × State S → Answer × AdminState S
  after_reset r x p name (err e, m) = failed_with site r x p e m
  after_reset r x p name (ok _, m) =
      redirect_modal site r x (record p { mgr = m }) (prefix site)
        (say site r (codes "new_panel_password")
          (name ∷ x.password ∷ site.panel_url (b'/' ∷ site.url_path) ∷ []))

  unfoldable pub handle_reset_panel_pass : Handler S
  handle_reset_panel_pass r x p = with_form r.form p λ form.
      let name = form_value form (codes "name") in
      after_reset r x p name (reset_panel_password site.hash p.mgr name x.password)
