-- ===== src/Proxy/Tests/Parse.antt =====
-- The theorems on options, leaves, typed text and file references at concrete inputs.
use agterm_remote.Int.{atoi}
use agterm_remote.Prelude.{
  All, List, [], arith, length, map, refl, some, ℕ, ◌++◌, ◌<◌, ◌∷◌, ◌≡◌, ◌≤◌,
}
use agterm_remote.Proxy.Argv.{
  ParsedArgs, accept, long_option, no_args, parse_args, parse_loop, round, take_value, with_spec,
}
use agterm_remote.Proxy.Argv.Accepted.{parse_args-IsAccepted}
use agterm_remote.Proxy.Argv.Invariant.{IsAccepted, NoNul, Unrepeated}
use agterm_remote.Proxy.Argv.Rendered.{rendered}
use agterm_remote.Proxy.Argv.Reparse.{parse_args-parse_args}
use agterm_remote.Proxy.Call.{opt_arg, pos_args}
use agterm_remote.Proxy.Normalise.{file_index}
use agterm_remote.Proxy.Normalise.Files.{file_index-Exact}
use agterm_remote.Proxy.Schema.{is_stripped, opt_target, option}
use agterm_remote.Proxy.Tests.{type_leaf, words}
use agterm_remote.Proxy.Typed.{
  check_runes, in_ranges, is_control, is_format, max_typed_text, sanitize_typed,
}
use agterm_remote.Proxy.Typed.Visible.{
  IsHarmless, MayType, sanitize_typed_complete, sanitize_typed_sound,
}
use agterm_remote.Result.{ok}
use agterm_remote.Text.{Bytes, bytes_eq, codes, cut, itoa}
use agterm_remote.Utf8.{runes, runes_from, step}

abbrev parsed : ParsedArgs
parsed = record no_args {
  opts = record { spec = opt_target; value = codes "r2" } ∷ [];
  pos = codes "hi" ∷ [];
}

parse_args-IsAccepted_example :
    All (IsAccepted type_leaf) parsed.opts × All NoNul parsed.pos × Unrepeated parsed.opts
unfolding bytes_eq cut option accept take_value with_spec long_option round parse_loop parse_args
    is_stripped
parse_args-IsAccepted_example = parse_args-IsAccepted type_leaf (words "--target r2 hi") refl

-- The UTF-8 bytes of an accented word.
abbrev accented : Bytes
accented = b'h' ∷ 195 ∷ 169 ∷ []

sanitize_typed_sound_example :
    (length accented ≤ max_typed_text)
    × (All IsHarmless accented × ((rs : List ℕ) × (runes accented ≡ some rs) × All MayType rs))
unfolding sanitize_typed runes runes_from step check_runes is_control in_ranges is_format
sanitize_typed_sound_example = sanitize_typed_sound accented refl

sanitize_typed_complete_example : sanitize_typed (codes "hi") ≡ ok tt
unfolding runes runes_from step is_control is_format in_ranges
sanitize_typed_complete_example =
    sanitize_typed_complete (codes "hi") (b'h' ∷ b'i' ∷ []) (ground arith) refl (refl, (refl, tt))

parsed-Accepted :
    All (IsAccepted type_leaf) parsed.opts × All NoNul parsed.pos × Unrepeated parsed.opts
unfolding bytes_eq cut option accept take_value with_spec long_option round parse_loop parse_args
    is_stripped
parsed-Accepted = parse_args-IsAccepted type_leaf (words "--target=r2 hi") refl

parse_args-parse_args_example :
    parse_args type_leaf (map (λ o. opt_arg (rendered o)) parsed.opts ++ pos_args parsed.pos)
    ≡ ok parsed
unfolding bytes_eq cut option accept take_value with_spec long_option round parse_loop parse_args
    is_stripped
parse_args-parse_args_example = parse_args-parse_args type_leaf (words "--target r2 hi") refl refl

file_index-Exact_example : (codes "@2" ≡ b'@' ∷ itoa 2) × (2 < 3)
unfolding file_index bytes_eq itoa atoi
file_index-Exact_example = file_index-Exact (codes "@2") 3 refl
