-- ===== src/Mgr/Sampling/Kept.antt =====
-- The tables of the database under SampleTraffic and BatchUsers (src/internal/mgr/traffic.go,
-- src/internal/mgr/batch.go).
use lxc_hosting.Base.{ℕ, ◌≡◌, ◌∙◌, refl, List, [], ◌∷◌, Text, Option, none, some, Map, get, arith}
use lxc_hosting.Db.{User, Db}
use lxc_hosting.Db.Users.{list_users}
use lxc_hosting.Db.Counters.{apply_traffic}
use lxc_hosting.Host.{Calls, ContainerInfo}
use lxc_hosting.Mgr.{State}
use lxc_hosting.Mgr.Sampling.{
  sample_one, sample_users, sample_traffic, batch_users, traffic_map, sampled, first_snapshot,
  second_snapshot,
}

-- All tables but the traffic are the same.
pub record SameButTraffic (db db' : Db) : Type 0 where
  pub same_users : db'.users ≡ db.users
  pub same_domains : db'.domains ≡ db.domains
  pub same_sessions : db'.sessions ≡ db.sessions
  pub same_audit : db'.audit_log ≡ db.audit_log
  pub same_settings : db'.settings ≡ db.settings

pub same : (db : Db) → SameButTraffic db db
same db = record {
  same_users = refl;
  same_domains = refl;
  same_sessions = refl;
  same_audit = refl;
  same_settings = refl;
}

pub SameButTraffic_trans :
    {a b c : Db} → SameButTraffic a b → SameButTraffic b c → SameButTraffic a c
SameButTraffic_trans h k = record {
  same_users = k.same_users ∙ h.same_users;
  same_domains = k.same_domains ∙ h.same_domains;
  same_sessions = k.same_sessions ∙ h.same_sessions;
  same_audit = k.same_audit ∙ h.same_audit;
  same_settings = k.same_settings ∙ h.same_settings;
}

sample_one-same :
    (db : Db) (u : User) (period : Text) (t : Option (ℕ × ℕ))
    → SameButTraffic db (sample_one db u period t).1
unfolding apply_traffic
sample_one-same db u period none = same db
sample_one-same db u period (some (rx, tx)) = ground arith

sample_users-same :
    (tm : Map (ℕ × ℕ)) (period : Text) (us : List User) (db : Db)
    → SameButTraffic db (sample_users tm period us db).1
unfolding sample_users
sample_users-same tm period [] db = same db
sample_users-same tm period (u ∷ us) db =
    SameButTraffic_trans (sample_one-same db u period (get u.name tm))
      (sample_users-same tm period us (sample_one db u period (get u.name tm)).1)

module _ {S : Type 0} (h : Calls S) where
  sampled-same :
      (m : State S) (period : Text) (sn : Option (Map ContainerInfo) × S)
      → SameButTraffic m.db (sampled h m period sn).1.db
  sampled-same m period (none, s) = same _
  sampled-same m period (some sn, s) =
      sample_users-same (traffic_map sn) period (list_users m.db) m.db

  second_snapshot-same :
      (m : State S) (us : List User) (sn : Option (Map ContainerInfo) × S)
      → SameButTraffic m.db (second_snapshot h m us sn).1.db
  second_snapshot-same m us (none, s) = same _
  second_snapshot-same m us (some sn, s) = same _

  first_snapshot-same :
      (m : State S) (us : List User) (sn : Option (Map ContainerInfo) × S)
      → SameButTraffic m.db (first_snapshot h m us sn).1.db
  first_snapshot-same m us (none, s) = same _
  first_snapshot-same m us (some sn, s) =
      second_snapshot-same (record m { sys = s }) us (h.snapshot s)

  -- Loading the users writes the traffic, and nothing else.
  pub batch_users-same :
      (m : State S) (period : Text) → SameButTraffic m.db (batch_users h m period).1.db
  unfolding batch_users sample_traffic
  batch_users-same m period = SameButTraffic_trans (sampled-same m period (h.snapshot m.sys)) (
      first_snapshot-same (sample_traffic h m period).1 (list_users m.db)
        (h.snapshot (sample_traffic h m period).1.sys))
