-- ===== src/Version/Tests.antt =====
-- Versions of the kind that the snapshots record.
use lxc_hosting.Base.{◌≡◌, ◌∷◌, refl, true, codes, arith}
use lxc_hosting.Std.Int64.{int_lt}
use lxc_hosting.Version.{sem_ver_lt, blocked, parts}
use lxc_hosting.Version.Order.{blocked-render, sem_ver_lt-render, render, lex_lt}

sem_ver_lt-render_example :
    sem_ver_lt (render 0 9 0) (render 0 10 0)
    ≡ lex_lt
        (record { major = 0; minor = 9; patch = 0 })
        (record { major = 0; minor = 10; patch = 0 })
sem_ver_lt-render_example =
    sem_ver_lt-render 0 9 0 0 10 0 (omega arith) (omega arith) (omega arith) (omega arith)
      (omega arith) (omega arith)

blocked-render_example :
    (blocked (render 0 2 12)
      ≡ lex_lt
          (record { major = 0; minor = 2; patch = 12 })
          (record { major = 0; minor = 3; patch = 0 }))
    × (blocked (b'v' ∷ render 0 2 12)
        ≡ lex_lt
            (record { major = 0; minor = 2; patch = 12 })
            (record { major = 0; minor = 3; patch = 0 }))
blocked-render_example = blocked-render 0 2 12 (omega arith) (omega arith) (omega arith)

-- The digit of a suffix is read into the segment: a release candidate is newer than the release.
rc_test : sem_ver_lt (codes "0.3.0") (codes "0.3.0-rc1") ≡ true
unfolding sem_ver_lt parts int_lt
rc_test = refl
