-- ===== src/Remote/Probe/Tests.antt =====
-- Tests of the probe.
use agterm_remote.Int.{atoi}
use agterm_remote.Prelude.{refl, true, ◌≡◌}
use agterm_remote.Remote.Probe.{
  bad_value, duplicate_key, empty_probe, no_result, parse_line, parse_missing, parse_probe,
  parse_probe_bool, parse_probe_count, parse_probe_lines, set_key,
}
use agterm_remote.Remote.Sessions.{split, trim_newline}
use agterm_remote.Result.{err, ok}
use agterm_remote.Text.{bytes_eq, codes, cut}

probe_test :
    (parse_probe (codes "tmux\t3.4\nnc_u\tYES\nlegacy_targets\t2\nnew\tx\n")
      ≡ ok (record no_result { tmux_version = codes "3.4"; nc_u = true; legacy_targets = 2 }))
    × (parse_probe (codes "tmux\tMISSING\ntmux\t3\n") ≡ err (duplicate_key 2 (codes "tmux")))
    × (parse_probe (codes "sock\tmaybe\n") ≡ err (bad_value (codes "sock")))
    × (parse_probe (codes " \n") ≡ err empty_probe)
unfolding parse_probe parse_probe_lines parse_line set_key parse_missing parse_probe_bool
    parse_probe_count cut split trim_newline bytes_eq atoi
probe_test = (refl, refl, refl, refl)
