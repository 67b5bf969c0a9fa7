-- ===== src/Spool/Lines.antt =====
-- JSON lines: `marshalJSONLines` of internal/spool/writer.go, and its `ReadFile` with the
-- `bufio.Scanner` that it reads by.
pub mod RoundTrip
use log_service.Prelude.{
  ℕ, ◌*◌, Bool, true, false, Option, List, [], ◌∷◌, ◌++◌, leb, ◌==◌, Result, ok, err, or_err, ◌>>=◌,
  if◌then◌else◌,
}
use log_service.Prelude.Text.{Text, byte_len}
use log_service.LogEvent.{Event, Codec}

pub data FileError : Type 0 where
  marshal_failed bad_json line_too_long io_failed : FileError

-- `bufio.MaxScanTokenSize`: a line and its line end must fit the scanner's buffer of this size.
abbrev pub max_token : ℕ
max_token = 64 * 1024

abbrev pub newline : ℕ
newline = 10

-- The line without the carriage return before its end.
unfoldable pub drop_cr : Text → Text
drop_cr [] = []
drop_cr (c ∷ []) = if c == 13 then [] else c ∷ []
drop_cr (c ∷ d ∷ s) = c ∷ drop_cr (d ∷ s)

-- The lines of a text as the scanner cuts them: what follows the last line end is a line if it is
-- not empty.
abbrev pub cut : Bool → ℕ → List Text → List Text
cut true c ls = [] ∷ ls
cut false c [] = (c ∷ []) ∷ []
cut false c (l ∷ ls) = (c ∷ l) ∷ ls

unfoldable pub lines : Text → List Text
lines [] = []
lines (c ∷ s) = cut (c == newline) c (lines s)

module _ (codec : Codec) where
  -- marshalJSONLines
  unfoldable pub marshal_json_lines : List Event → Result FileError Text
  marshal_json_lines [] = ok []
  marshal_json_lines (event ∷ events) = do
    line ← or_err (codec.marshal event) marshal_failed
    payload ← marshal_json_lines events
    ok (line ++ (newline ∷ payload))

  -- The loop of ReadFile: a line that does not fit ends the scan with an error, and so does one
  -- that is no event.
  unfoldable pub read_lines : List Text → Result FileError (List Event)
  read_lines [] = ok []
  read_lines (line ∷ ls) =
      let rest = read_lines ls in
      if leb max_token (byte_len line) then err line_too_long else do
        event ← or_err (codec.unmarshal (drop_cr line)) bad_json
        events ← rest
        ok (event ∷ events)

  -- ReadFile, on the content of a file
  unfoldable pub read_file : Text → Result FileError (List Event)
  unfolding read_lines lines drop_cr
  read_file content = read_lines (lines content)
