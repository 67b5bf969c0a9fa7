-- ===== src/LogLine.antt =====
-- internal/logline: types.go (the record of a log line) and parser.go (its parser).
-- `time.Parse` with RFC 3339 and `netip.ParseAddr` are parameters. A `netip.Addr` stands for the
-- text that its `String` method prints. An error is the sentinel with what `%w: …` adds to it.
pub mod Accepts
pub mod Rejects
use log_service.Prelude.{
  ℕ, Bool, Option, none, some, List, [], ◌∷◌, length, ◌||◌, Result, ok, err, or_err, guard, ◌>>=◌,
  ◌>>◌, if◌then◌else◌,
}
use log_service.Prelude.Clock.{Time}
use log_service.Prelude.Int.{ℤ, pos, ltb_ℤ}
use log_service.Prelude.Text.{Text, codes, text_eq, is_empty, trim_space, fields, has_prefix, atoi}

pub record Addr : Type 0 where
  pub text : Text

pub record Record : Type 0 where
  pub timestamp : Time
  pub ip : Addr
  pub method : Text
  pub path : Text
  pub status : ℤ
  pub raw : Text

pub data ParseError : Type 0 where
  empty_line : ParseError
  invalid_field_count : ℕ → ParseError
  invalid_timestamp invalid_ip invalid_method invalid_path invalid_status : Text → ParseError

-- What the parser takes from Go's packages `time` and `net/netip`.
pub record Readers : Type 0 where
  pub parse_time : Text → Option Time
  pub parse_addr : Text → Option Addr

abbrev pub allowed_methods : List Text
allowed_methods =
    codes "GET"
    ∷ codes "POST"
    ∷ codes "PUT"
    ∷ codes "PATCH"
    ∷ codes "DELETE"
    ∷ codes "HEAD"
    ∷ codes "OPTIONS"
    ∷ []

unfoldable pub lists : List Text → Text → Bool
lists [] m = Bool.false
lists (x ∷ xs) m = text_eq x m || lists xs m

-- IsAllowedMethod
unfoldable pub is_allowed_method : Text → Bool
is_allowed_method m = lists allowed_methods m

unfoldable pub check_status : Text → Option ℤ → Result ParseError ℤ
check_status text none = err (invalid_status text)
check_status text (some n) =
    if ltb_ℤ n (pos 100) || ltb_ℤ (pos 599) n then err (invalid_status text) else ok n

module _ (rd : Readers) where
  unfoldable pub parse_fields : Text → List Text → Result ParseError Record
  parse_fields raw (stamp ∷ addr ∷ method ∷ path ∷ code ∷ []) = do
    timestamp ← or_err (rd.parse_time stamp) (invalid_timestamp stamp)
    ip ← or_err (rd.parse_addr addr) (invalid_ip addr)
    guard (is_allowed_method method) (invalid_method method)
    guard (has_prefix path (codes "/")) (invalid_path path)
    status ← check_status code (atoi code)
    ok (record {
      timestamp = timestamp;
      ip = ip;
      method = method;
      path = path;
      status = status;
      raw = raw;
    })
  parse_fields raw words = err (invalid_field_count (length words))

  unfoldable pub parse_raw : Text → Result ParseError Record
  unfolding parse_fields
  parse_raw raw = if is_empty raw then err empty_line else parse_fields raw (fields raw)

  -- Parse
  unfoldable pub parse : Text → Result ParseError Record
  unfolding parse_raw
  parse line = parse_raw (trim_space line)
