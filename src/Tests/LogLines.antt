-- ===== src/Tests/LogLines.antt =====
-- The parser at concrete lines.
use log_service.Prelude.{◌≡◌, ◌⊎◌, refl, ok, err, [], ◌++◌}
use log_service.Prelude.Text.{
  Text, codes, text_eq, is_space, trim_space, trim_left, trim_right, fields, has_prefix, atoi,
  natural, digits,
}
use log_service.LogLine.{
  empty_line, invalid_method, is_allowed_method, lists, check_status, parse_fields, parse_raw,
  parse,
}
use log_service.LogLine.Accepts.{Reads, parse-Reads}
use log_service.LogLine.Rejects.{Defect, parse-Defect}
use log_service.Tests.Samples.{readers, line, parsed}

pub parse-line : parse readers line ≡ ok parsed
unfolding parse parse_raw parse_fields trim_space trim_left trim_right fields is_space text_eq
    is_allowed_method lists has_prefix check_status atoi natural digits
parse-line = refl

parse_blank : parse readers (codes "  ") ≡ err empty_line
unfolding parse parse_raw trim_space trim_left trim_right is_space
parse_blank = refl

abbrev pub bad_line : Text
bad_line = codes "2026-01-02T03:04:05Z 10.0.0.1 BREW /health 200"

pub parse_bad : parse readers bad_line ≡ err (invalid_method (codes "BREW"))
unfolding parse parse_raw parse_fields trim_space trim_left trim_right fields is_space text_eq
    is_allowed_method lists has_prefix check_status atoi natural digits
parse_bad = refl

parse-Reads_example :
    (stamp' addr code : Text) × Reads readers
      (trim_space line)
      (fields (trim_space line))
      stamp'
      addr
      code
      parsed
parse-Reads_example = (parse-Reads readers line parsed).0 parse-line

parse-padded : parse readers (codes "  " ++ line) ≡ ok parsed
unfolding parse parse_raw parse_fields trim_space trim_left trim_right fields is_space text_eq
    is_allowed_method lists has_prefix check_status atoi natural digits
parse-padded = refl

parse-Defect_example :
    ((invalid_method (codes "BREW") ≡ empty_line) × (trim_space bad_line ≡ []))
    ⊎ Defect readers (fields (trim_space bad_line)) (invalid_method (codes "BREW"))
parse-Defect_example = parse-Defect readers bad_line (invalid_method (codes "BREW")) parse_bad
