-- ===== src/Daemon/Version/Tests.antt =====
-- Tests of the comparison of versions, and its theorem at concrete versions.
use agterm_remote.Daemon.Version.{parts_of, version_less, version_parts}
use agterm_remote.Daemon.Version.Ordered.{IsBelow, print_version, version_less-IsBelow}
use agterm_remote.Int.{atoi}
use agterm_remote.Prelude.{arith, false, refl, true, ◌↔◌, ◌≡◌}
use agterm_remote.Remote.Sessions.{split}
use agterm_remote.Text.{codes, cut}

less_test :
    (version_less (codes "v1.2.9-beta") (codes "1.10.0") ≡ true)
    × (version_less (codes "1.10.0") (codes "1.2.9") ≡ false)
    × (version_less (codes "dev") (codes "1.2.9") ≡ false)
unfolding version_less version_parts parts_of split atoi cut
less_test = (refl, refl, refl)

version_less-IsBelow_example :
    (version_less (print_version (1, (2, 9))) (print_version (1, (10, 0))) ≡ true)
    ↔ IsBelow (1, (2, 9)) (1, (10, 0))
version_less-IsBelow_example =
    version_less-IsBelow (1, (2, 9)) (1, (10, 0)) (omega arith, omega arith, omega arith)
      (omega arith, omega arith, omega arith)
