-- ===== src/Mgr/Sampling.antt =====
-- SampleTraffic (src/internal/mgr/traffic.go), BatchUsers (src/internal/mgr/batch.go) and
-- TrafficMap (src/internal/lx/lx.go). The month is an argument.
pub mod Kept
use lxc_hosting.Base.{
  ℕ, Bool, true, false, ◌&&◌, List, [], ◌∷◌, if◌then◌else◌, Text, text_eq, codes, Option, none,
  some, Map, get,
}
use lxc_hosting.Db.{User, Traffic, Db, DbResult}
use lxc_hosting.Db
use lxc_hosting.Db.Users.{list_users}
use lxc_hosting.Db.Counters.{get_traffic, apply_traffic}
use lxc_hosting.Host.{Calls, ContainerInfo}
use lxc_hosting.Mgr.{State, MgrError, Outcome, Done, ok, err, db_error, call_failed}

-- the received and the sent bytes of the running containers
unfoldable pub traffic_map : Map ContainerInfo → Map (ℕ × ℕ)
traffic_map [] = []
traffic_map ((name, ci) ∷ sn) =
    let rest = traffic_map sn in
    if text_eq ci.status (codes "Running") then (name, (ci.rx, ci.tx)) ∷ rest else rest

-- an update that fails leaves the table as it is, and the loop goes on
abbrev pub applied : Db → DbResult Db → Bool × Db
applied db (Db.err e) = (false, db)
applied db (Db.ok db') = (true, db')

abbrev pub sample_one : Db → User → Text → Option (ℕ × ℕ) → Bool × Db
sample_one db u period none = (true, db)
sample_one db u period (some (rx, tx)) = applied db (apply_traffic db u.id period rx tx)

-- The loop of sampleTraffic; whether all updates succeeded.
unfoldable pub sample_users : Map (ℕ × ℕ) → Text → List User → Db → Bool × Db
sample_users tm period [] db = (true, db)
sample_users tm period (u ∷ us) db =
    let (fine, db1) = sample_one db u period (get u.name tm) in
    let (rest, db2) = sample_users tm period us db1 in (fine && rest, db2)

pub record UserStatus : Type 0 where
  pub user : User
  pub state : Text
  pub up : ℕ
  pub down : ℕ
  pub procs : ℕ

abbrev info_of : Option ContainerInfo → ContainerInfo
info_of none = record { status = []; processes = 0; rx = 0; tx = 0 }
info_of (some ci) = ci

abbrev pub up_down : DbResult Traffic → ℕ × ℕ
up_down (Db.err e) = (0, 0)
up_down (Db.ok t) = (t.upload, t.download)

unfoldable pub statuses : Db → Map ContainerInfo → List User → List UserStatus
statuses db sn [] = []
statuses db sn (u ∷ us) =
    record {
      user = u;
      state = (info_of (get u.name sn)).status;
      up = (up_down (get_traffic db u.id)).0;
      down = (up_down (get_traffic db u.id)).1;
      procs = (info_of (get u.name sn)).processes;
    }
    ∷ statuses db sn us

module _ {S : Type 0} (h : Calls S) where
  abbrev pub sampled : State S → Text → Option (Map ContainerInfo) × S → Done × State S
  sampled m period (none, s) = (err call_failed, record m { sys = s })
  sampled m period (some sn, s) =
      let (fine, db) = sample_users (traffic_map sn) period (list_users m.db) m.db in
      ((if fine then ok tt else err call_failed), record m { db = db; sys = s })

  unfoldable pub sample_traffic : State S → Text → Done × State S
  unfolding traffic_map sample_users
  sample_traffic m period = sampled m period (h.snapshot m.sys)

  abbrev pub second_snapshot :
      State S → List User → Option (Map ContainerInfo) × S → Outcome (List UserStatus) × State S
  second_snapshot m us (none, s) = (err call_failed, record m { sys = s })
  second_snapshot m us (some sn, s) = (ok (statuses m.db sn us), record m { sys = s })

  abbrev pub first_snapshot :
      State S → List User → Option (Map ContainerInfo) × S → Outcome (List UserStatus) × State S
  first_snapshot m us (none, s) = (err call_failed, record m { sys = s })
  first_snapshot m us (some sn, s) = second_snapshot (record m { sys = s }) us (h.snapshot s)

  -- BatchUsers, without the CPU, memory and disk usage that it shows
  unfoldable pub batch_users : State S → Text → Outcome (List UserStatus) × State S
  unfolding sample_traffic statuses
  batch_users m period =
      let m1 = (sample_traffic m period).1 in
      first_snapshot m1 (list_users m.db) (h.snapshot m1.sys)
