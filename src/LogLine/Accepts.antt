-- ===== src/LogLine/Accepts.antt =====
-- What a line that `parse` accepts looks like (internal/logline/parser.go).
use log_service.Prelude.{◌≡◌, ◌≤◌, ◌↔◌, ap, ◌∙◌, true, some, List, [], ◌∷◌, ◌++◌, All, ok, arith}
use log_service.Prelude.Int.{pos_part}
use log_service.Prelude.Text.{Text, codes, trim_space, fields, has_prefix, atoi}
use log_service.Prelude.Text.Words.{
  IsWord, IsSpaces, join, fields-join, EndsWord-join, StartsWord-join, trim_space-pad,
  trim_space_idem,
}
use log_service.LogLine.{
  Readers, Record, is_allowed_method, check_status, parse_fields, parse_raw, parse,
}

-- The words of a line, in order.
abbrev pub words_of : Text → Text → Text → Record → List Text
words_of stamp addr code r = stamp ∷ addr ∷ r.method ∷ r.path ∷ code ∷ []

-- The words of an accepted line, and what each of them reads as.
pub record Reads (rd : Readers) (raw : Text) (words : List Text) (stamp addr code : Text)
    (r : Record) : Type 0 where
  pub words_eq : words ≡ words_of stamp addr code r
  pub time_eq : rd.parse_time stamp ≡ some r.timestamp
  pub addr_eq : rd.parse_addr addr ≡ some r.ip
  pub method_ok : is_allowed_method r.method ≡ true
  pub path_ok : has_prefix r.path (codes "/") ≡ true
  pub status_eq : atoi code ≡ some r.status
  pub low : 100 ≤ pos_part r.status
  pub high : pos_part r.status ≤ 599
  pub raw_eq : r.raw ≡ raw

module _ (rd : Readers) where
  parse_fields-Reads :
      (raw : Text) (words : List Text) (r : Record)
      → parse_fields rd raw words ≡ ok r
      → (stamp addr code : Text) × Reads rd raw words stamp addr code r
  unfolding parse_fields check_status
  parse_fields-Reads raw (stamp ∷ addr ∷ method ∷ path ∷ code ∷ []) r h =
      (stamp, addr, code, ground arith)
  parse_fields-Reads raw words r h = cc

  Reads-parse_fields :
      (raw : Text) (words : List Text) (stamp addr code : Text) (r : Record)
      → Reads rd raw words stamp addr code r
      → parse_fields rd raw words ≡ ok r
  unfolding parse_fields check_status
  Reads-parse_fields raw words stamp addr code r h = ground arith

  parse_raw-Reads :
      (raw : Text) (r : Record)
      → parse_raw rd raw ≡ ok r
      → (stamp addr code : Text) × Reads rd raw (fields raw) stamp addr code r
  unfolding parse_raw parse_fields
  parse_raw-Reads [] r h = cc
  parse_raw-Reads (c ∷ raw) r h = parse_fields-Reads (c ∷ raw) (fields (c ∷ raw)) r h

  Reads-parse_raw :
      (raw stamp addr code : Text) (r : Record)
      → Reads rd raw (fields raw) stamp addr code r
      → parse_raw rd raw ≡ ok r
  unfolding parse_raw fields
  Reads-parse_raw [] stamp addr code r h = cc (h.words_eq)
  Reads-parse_raw (c ∷ raw) stamp addr code r h =
      Reads-parse_fields (c ∷ raw) (fields (c ∷ raw)) stamp addr code r h

  -- A line is accepted with a record exactly if its trimmed text has five words that read as the
  -- record's fields: a time, an address, an allowed method, a path that begins with a slash and a
  -- status from 100 to 599. The record keeps the trimmed text as its raw line.
  pub parse-Reads :
      (line : Text) (r : Record)
      → (parse rd line ≡ ok r) ↔ (
          (stamp addr code : Text) × Reads rd
            (trim_space line)
            (fields (trim_space line))
            stamp
            addr
            code
            r)
  unfolding parse
  parse-Reads line r = (
    parse_raw-Reads (trim_space line) r,
    λ (stamp, addr, code, h). Reads-parse_raw (trim_space line) stamp addr code r h,
  )

  -- An accepted line's raw text is accepted again, with the same record.
  pub parse-raw : (line : Text) (r : Record) → parse rd line ≡ ok r → parse rd r.raw ≡ ok r
  unfolding parse
  parse-raw line r h =
      let (stamp, addr, code, reads) = parse_raw-Reads (trim_space line) r h in
      ap (parse rd) reads.raw_eq ∙ ap (parse_raw rd) (trim_space_idem line) ∙ h

  -- A line of five words joined by single spaces, with any spaces around it, is accepted if the
  -- words read as the fields of a record that has the joined words as its raw text, and the result
  -- is that record.
  pub parse-join :
      (pad pad' stamp addr code : Text) (r : Record)
      → IsSpaces pad
      → IsSpaces pad'
      → All IsWord (words_of stamp addr code r)
      → Reads rd (join (words_of stamp addr code r)) (words_of stamp addr code r) stamp addr code r
      → parse rd (pad ++ (join (words_of stamp addr code r) ++ pad')) ≡ ok r
  unfolding parse
  parse-join pad pad' stamp addr code r hp hp' hw h =
      let ws : List Text = words_of stamp addr code r in
      let rest : List Text = addr ∷ r.method ∷ r.path ∷ code ∷ [] in
      ap (parse_raw rd) (
        trim_space-pad pad (join ws) pad' hp (StartsWord-join stamp rest hw)
          (EndsWord-join stamp rest hw) hp')
      ∙ Reads-parse_raw (join ws) stamp addr code r (rw (fields-join ws hw) h)
