-- ===== src/LogLine/Rejects.antt =====
-- Which error `parse` reports (internal/logline/parser.go): the first test that fails decides.
use log_service.Prelude.{
  ◌≡◌, ◌≢◌, ◌<◌, ◌⊎◌, inl, inr, refl, true, false, Option, none, some, List, [], ◌∷◌, length, err,
  arith,
}
use log_service.Prelude.Int.{ℤ, pos_part}
use log_service.Prelude.Text.{Text, codes, trim_space, fields, has_prefix, atoi}
use log_service.LogLine.{
  Readers, ParseError, empty_line, invalid_field_count, invalid_timestamp, invalid_ip,
  invalid_method, invalid_path, invalid_status, is_allowed_method, check_status, parse_fields,
  parse_raw, parse,
}

-- Not a status from 100 to 599.
abbrev pub BadStatus : Option ℤ → Type 0
BadStatus none = Unit
BadStatus (some n) = (pos_part n < 100) ⊎ (599 < pos_part n)

-- The defect that an error names, with the tests before it passed.
abbrev pub Defect : Readers → List Text → ParseError → Type 0
Defect rd (t ∷ a ∷ m ∷ p ∷ c ∷ []) empty_line = ⊥
Defect rd (t ∷ a ∷ m ∷ p ∷ c ∷ []) (invalid_field_count n) = ⊥
Defect rd (t ∷ a ∷ m ∷ p ∷ c ∷ []) (invalid_timestamp x) = (x ≡ t) × (rd.parse_time t ≡ none)
Defect rd (t ∷ a ∷ m ∷ p ∷ c ∷ []) (invalid_ip x) =
    (x ≡ a) × (rd.parse_time t ≢ none) × (rd.parse_addr a ≡ none)
Defect rd (t ∷ a ∷ m ∷ p ∷ c ∷ []) (invalid_method x) =
    (x ≡ m) × (rd.parse_time t ≢ none) × (rd.parse_addr a ≢ none) × (is_allowed_method m ≡ false)
Defect rd (t ∷ a ∷ m ∷ p ∷ c ∷ []) (invalid_path x) =
    (x ≡ p)
    × (rd.parse_time t ≢ none)
    × (rd.parse_addr a ≢ none)
    × (is_allowed_method m ≡ true)
    × (has_prefix p (codes "/") ≡ false)
Defect rd (t ∷ a ∷ m ∷ p ∷ c ∷ []) (invalid_status x) =
    (x ≡ c)
    × (rd.parse_time t ≢ none)
    × (rd.parse_addr a ≢ none)
    × (is_allowed_method m ≡ true)
    × (has_prefix p (codes "/") ≡ true)
    × BadStatus (atoi c)
Defect rd ws (invalid_field_count n) = n ≡ length ws
Defect rd ws e = ⊥

parse_fields-Defect :
    (rd : Readers) (raw : Text) (words : List Text) (e : ParseError)
    → parse_fields rd raw words ≡ err e
    → Defect rd words e
unfolding parse_fields check_status
parse_fields-Defect rd raw (t ∷ a ∷ m ∷ p ∷ c ∷ []) (invalid_field_count n) h = ground arith
parse_fields-Defect rd raw (t ∷ a ∷ m ∷ p ∷ c ∷ []) e h = ground arith
parse_fields-Defect rd raw ws (invalid_field_count n) h = ground arith
parse_fields-Defect rd raw ws e h = cc

parse_raw-Defect :
    (rd : Readers) (raw : Text) (e : ParseError)
    → parse_raw rd raw ≡ err e
    → ((e ≡ empty_line) × (raw ≡ [])) ⊎ Defect rd (fields raw) e
unfolding parse_raw parse_fields
parse_raw-Defect rd [] e h = inl (cc, refl)
parse_raw-Defect rd (c ∷ s) e h = inr (parse_fields-Defect rd (c ∷ s) (fields (c ∷ s)) e h)

-- A rejected line is empty once trimmed, and the error says so, or the error names the first test
-- that the words of the trimmed line fail: the count of five, then the time, the address, the
-- method, the path and the status; the tests before it have passed.
pub parse-Defect :
    (rd : Readers) (line : Text) (e : ParseError)
    → parse rd line ≡ err e
    → ((e ≡ empty_line) × (trim_space line ≡ [])) ⊎ Defect rd (fields (trim_space line)) e
unfolding parse
parse-Defect rd line e h = parse_raw-Defect rd (trim_space line) e h
