-- ===== src/Tests/Generating.antt =====
-- The generator with a random source of zeros and a target that is busy once.
use log_service.Prelude.{ℕ, ◌+◌, ◌≡◌, refl, [], some, ok, if◌then◌else◌, ◌==◌, arith}
use log_service.Prelude.Clock.{Time}
use log_service.Prelude.Int.{pos}
use log_service.Prelude.Text.{Text, codes, is_space}
use log_service.LogLine.{Readers, Record, parse}
use log_service.Generator.{Stats, answered, Target, make_log_line, address}
use log_service.Generator.Lines.{make_log_line-accepted}
use log_service.Tests.Samples.{now, stamp, stamp_time}

abbrev pub zeros : ℕ → Unit {0} → ℕ × Unit {0}
zeros n s = (0, s)

abbrev pub format_stamp : Time → Text
format_stamp t = stamp

abbrev any_readers : Readers
any_readers = record {
  parse_time = λ t. some stamp_time;
  parse_addr = λ t. some (record { text = t });
}

make_log_line-accepted_example :
    (record' : Record) × (parse any_readers (make_log_line zeros format_stamp now tt).0
      ≡ ok record')
    × (record'.timestamp ≡ stamp_time)
    × (record'.raw ≡ (make_log_line zeros format_stamp now tt).0)
unfolding is_space
make_log_line-accepted_example =
    make_log_line-accepted zeros format_stamp any_readers (λ a b c. record { text = address a b c })
      (λ t. stamp_time) (λ n r h. h) (λ t. ground arith) (λ t. refl) (λ a b c ha hb hc. refl) now tt

-- The number of requests: the first is answered with 503, the others with 202.
abbrev target : Target ℕ
target = record {
  encode = λ records. some (codes "{}");
  send = λ payload n. (some (answered (if n == 0 then 503 else 202) (pos 1) 1000), n + 1);
  sleep = λ t n. n;
}

abbrev pub fresh : Stats
fresh = record {
  generated = 0;
  sent = 0;
  accepted = 0;
  failed_requests = 0;
  retries = 0;
  latencies = [];
}
