-- ===== src/Dashboard/Elastic.antt =====
-- internal/dashboard/elasticsearch.go: the queries of the dashboard. The HTTP client, the JSON encoder and
-- decoders, the formats and `url.PathEscape` are parameters.
use log_service.Prelude.{
  ℕ, Bool, List, [], ◌∷◌, ◌++◌, Option, none, some, Result, ok, err, ◌&&◌, ◌==◌, leb, if◌then◌else◌,
}
use log_service.Prelude.Clock.{Time, utc}
use log_service.Prelude.Int.{ℤ, pos}
use log_service.Prelude.Text.{Text, codes, contains}
use log_service.Dashboard.{Fields, given, unavailable, MetricsPoint, LogRecord, LogsResponse}
use log_service.Dashboard.Query.{Filter, range_query}

pub record Reply : Type 0 where
  pub status : ℕ
  pub status_text : Text
  pub body : Text

-- The body of a request: a query to count, a query with a histogram between two times, or a query for
-- so many of the newest records.
pub data Body : Type 0 where
  counting : List Filter → Body
  histogram : List Filter → Text → Text → Body
  newest : ℤ → List Filter → Body

-- A histogram's bucket is its time as text and its count.
pub record Elastic (Object S : Type 0) : Type 0 where
  pub url : Text
  pub format : Time → Text
  pub parse_time : Text → Option Time
  pub path_escape : Text → Text
  pub encode : Body → Result Text Text
  pub decode_object : Text → Result Text Object
  pub decode_count : Text → Result Text ℤ
  pub decode_buckets : Text → Result Text (List (Text × ℤ))
  pub decode_hits : Text → Result Text (ℤ × List LogRecord)
  pub get : Text → S → Result Text Reply × S
  pub post : Text → Text → S → Result Text Reply × S

-- `strings.TrimRight(s, "/")`
abbrev pub trim_step : ℕ → Text → Text
trim_step c (d ∷ s) = c ∷ d ∷ s
trim_step c [] = if c == b'/' then [] else c ∷ []

unfoldable pub trim_slashes : Text → Text
trim_slashes [] = []
trim_slashes (c ∷ s) = trim_step c (trim_slashes s)

module _ {Object S : Type 0} (es : Elastic Object S) where
  -- The base URL that newElasticClient keeps
  unfoldable pub base_url : Text
  unfolding trim_slashes
  base_url = trim_slashes es.url

  abbrev pub returned : Reply → Text
  returned reply = codes "elasticsearch returned " ++ reply.status_text

  abbrev pub got : {A : Type 0} → (Text → Result Text A) → Result Text Reply → Result Text A
  got decode (err e) = err e
  got decode (ok reply) = if leb 400 reply.status then err (returned reply) else decode reply.body

  -- get
  unfoldable pub get : {A : Type 0} → (Text → Result Text A) → Text → S → Result Text A × S
  unfolding base_url
  get decode path s = let (r, t) = es.get (base_url ++ path) s in (got decode r, t)

  -- The indices are named by a pattern, so that there may be none.
  abbrev pub is_missing : Text → Reply → Bool
  is_missing path reply = reply.status == 404 && contains (es.path_escape path) (codes "logs-%2A")

  abbrev pub posted :
      {A : Type 0} → (Text → Result Text A) → A → Text → Result Text Reply → Result Text A
  posted decode zero path (err e) = err e
  posted decode zero path (ok reply) =
      if is_missing path reply then ok zero else got decode (ok reply)

  unfoldable pub post_encoded :
      {A : Type 0} → (Text → Result Text A) → A → Text → Result Text Text → S → Result Text A × S
  unfolding base_url
  post_encoded decode zero path (err e) s = (err e, s)
  post_encoded decode zero path (ok payload) s =
      let (r, t) = es.post (base_url ++ path) payload s in (posted decode zero path r, t)

  -- post; the target keeps its zero value if there is no index.
  unfoldable pub post :
      {A : Type 0} → (Text → Result Text A) → A → Text → Body → S → Result Text A × S
  unfolding post_encoded
  post decode zero path body s = post_encoded decode zero path (es.encode body) s

  abbrev pub reported : Result Text Object → Fields Object
  reported (err e) = unavailable e
  reported (ok object) = given object

  -- health
  unfoldable pub health : S → Fields Object × S
  unfolding get
  health s = let (r, t) = get es.decode_object (codes "/_cluster/health") s in (reported r, t)

  abbrev pub counted : Result Text ℤ → ℤ
  counted (err e) = pos 0
  counted (ok n) = n

  -- count
  unfoldable pub count : Time → Time → S → ℤ × S
  unfolding post range_query
  count from to s =
      let (r, t) =
        post es.decode_count (pos 0) (codes "/logs-*/_count")
          (counting (range_query es.format from to [] [] [])) s in
      (counted r, t)

  abbrev pub add_point : Option Time → ℤ → List MetricsPoint → List MetricsPoint
  add_point none n points = points
  add_point (some ts) n points = record { time_bucket = ts; count = n } ∷ points

  -- The loop over the buckets: one whose time cannot be read is passed over.
  unfoldable pub to_points : List (Text × ℤ) → List MetricsPoint
  to_points [] = []
  to_points ((key, n) ∷ buckets) = add_point (es.parse_time key) n (to_points buckets)

  abbrev pub points_of : Result Text (List (Text × ℤ)) → Result Text (List MetricsPoint)
  points_of (err e) = err e
  points_of (ok buckets) = ok (to_points buckets)

  -- metrics
  unfoldable pub metrics : Time → Time → Text → Text → S → Result Text (List MetricsPoint) × S
  unfolding post range_query to_points
  metrics from to ip path s =
      let (r, t) =
        post es.decode_buckets [] (codes "/logs-*/_search")
          (histogram (range_query es.format from to ip path []) (es.format (utc from))
            (es.format (utc to)))
          s in
      (points_of r, t)

  abbrev pub page_of : Time → Time → ℤ → Result Text (ℤ × List LogRecord) → Result Text LogsResponse
  page_of from to limit (err e) = err e
  page_of from to limit (ok (total, logs)) =
      ok (record { from = from; to = to; limit = limit; total = total; logs = logs })

  -- logs
  unfoldable pub logs : Time → Time → Text → Text → Text → ℤ → S → Result Text LogsResponse × S
  unfolding post range_query
  logs from to ip path status limit s =
      let (r, t) =
        post es.decode_hits (pos 0, []) (codes "/logs-*/_search")
          (newest limit (range_query es.format from to ip path status)) s in
      (page_of from to limit r, t)
