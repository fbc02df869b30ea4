-- ===== src/Db/Migrate.antt =====
-- The migration of the cpu column to tenths of a core (src/internal/db/db.go, migrateCPU).
use lxc_hosting.Base.{◌*◌, leb, if◌then◌else◌, map}
use lxc_hosting.Db.{User, Db}

-- One transaction: either both the update and the version are there, or none.
unfoldable pub migrate_cpu : Db → Db
migrate_cpu db = if leb 1 db.user_version then db else record db {
  users = map (λ (u : User). record u { cpu = u.cpu * 10 }) db.users;
  user_version = 1;
}
