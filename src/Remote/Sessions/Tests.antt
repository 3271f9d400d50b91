-- ===== src/Remote/Sessions/Tests.antt =====
-- Tests of the list of sessions, and its theorem at a concrete list.
use agterm_remote.Prelude.{List, [], arith, map, none, refl, some, ◌∷◌, ◌≡◌}
use agterm_remote.Remote.Sessions.{
  bad_fields, parse_fields, parse_lines, parse_sessions, split, trim_newline,
}
use agterm_remote.Remote.Sessions.Printed.{
  Reported, as_session, parse_sessions-print_sessions, print_sessions,
}
use agterm_remote.Result.{err, ok}
use agterm_remote.Text.{bytes_eq, codes, itoa}
use agterm_remote.Token.{valid, valid_char}

abbrev two : List Reported
two =
    (record { name = codes "api"; attached = 1; idle = none; cmds = codes "vim,sh"; state = [] })
    ∷ (record {
      name = codes "web-2";
      attached = 0;
      idle = some 90;
      cmds = [];
      state = codes "idle";
    })
    ∷ []

print_test : print_sessions two ≡ codes "api\t1\t-\tvim,sh\t-\nweb-2\t0\t90\t\tidle\n"
unfolding itoa
print_test = refl

-- A name that is not valid is skipped; a line that lacks a field is an error.
odd_test :
    (parse_sessions (codes "-x\t1\t-\t\t-\n") ≡ ok [])
    × (parse_sessions (codes "api\t1\t-\t\n") ≡ err (bad_fields 1))
unfolding parse_sessions parse_lines parse_fields split trim_newline valid valid_char
odd_test = (refl, refl)

parse_sessions-print_sessions_example :
    parse_sessions (print_sessions two) ≡ ok (map as_session two)
unfolding valid valid_char bytes_eq
parse_sessions-print_sessions_example = parse_sessions-print_sessions two (
  record {
    valid_name = refl;
    small = omega arith;
    small_idle = tt;
    plain_cmds = (refl, refl);
    plain_state = (refl, refl);
    no_dash = refl;
  },
  (
    record {
      valid_name = refl;
      small = omega arith;
      small_idle = omega arith;
      plain_cmds = (refl, refl);
      plain_state = (refl, refl);
      no_dash = refl;
    },
    tt,
  ),
)
