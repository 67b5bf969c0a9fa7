-- ===== src/Generator/Lines.antt =====
-- The lines of the generator are lines that the log API accepts (cmd/log-generator/main.go).
use log_service.Prelude.{
  ℕ, zero, suc, ◌+◌, ◌<◌, ◌≡◌, refl, sym, ap, ◌∙◌, true, false, List, [], ◌∷◌, ◌++◌, some, length,
  ok, All, All-append, Bool-cases, inl, inr, ltb, ◌%◌, ◌/◌, ◌≤◌, arith,
}
use mathlib.Core.List.{append-nil}
use log_service.Prelude.Clock.{Time, utc}
use log_service.Prelude.Int.{pos}
use log_service.Prelude.Text.{
  Text, codes, text_eq, is_space, has_prefix, atoi, natural, digits, decimal, decimal_digits,
}
use log_service.Prelude.Text.Words.{IsWord, join}
use log_service.LogLine.{Readers, Record, Addr, is_allowed_method, lists, parse}
use log_service.LogLine.Accepts.{parse-join}
use log_service.Generator.{methods, paths, statuses, pick, address, make_log_line}

pick-All :
    {A : Type 0} (P : A → Type 0) (xs : List A) (n : ℕ) (fallback : A)
    → All P xs
    → n < length xs
    → P (pick xs n fallback)
unfolding pick
pick-All P [] n fallback h lt = absurd (omega arith)
pick-All P (x ∷ xs) zero fallback (h, hs) lt = h
pick-All P (x ∷ xs) (suc n) fallback (h, hs) lt = pick-All P xs n fallback hs (omega arith)

abbrev IsMethod : Text → Type 0
IsMethod m = IsWord m × (is_allowed_method m ≡ true)

methods-IsMethod : All IsMethod methods
unfolding is_allowed_method lists is_space text_eq
methods-IsMethod = ground arith

abbrev IsPath : Text → Type 0
IsPath p = IsWord p × (has_prefix p (codes "/") ≡ true)

paths-IsPath : All IsPath paths
unfolding has_prefix is_space
paths-IsPath = ground arith

abbrev IsStatus : ℕ → Type 0
IsStatus n = IsWord (decimal n) × (atoi (decimal n) ≡ some (pos n)) × (100 ≤ n) × (n ≤ 599)

statuses-IsStatus : All IsStatus statuses
unfolding decimal decimal_digits atoi natural digits is_space
statuses-IsStatus = ground arith

abbrev IsDigit : ℕ → Type 0
IsDigit c = is_space c ≡ false

digit : (n : ℕ) → n < 10 → is_space (n + 48) ≡ false
unfolding is_space
digit n h = ground arith

decimal_digits-words : (fuel n : ℕ) → All IsDigit (decimal_digits fuel n)
unfolding decimal_digits
decimal_digits-words zero n = tt
decimal_digits-words (suc fuel) n = elim (Bool-cases (ltb n 10)) [
  | inl e ↦ rw e (digit n (ground arith), tt)
  | inr e ↦ rw e (
      All-append IsDigit (decimal_digits fuel (n / 10)) ((n % 10 + 48) ∷ [])
        (decimal_digits-words fuel (n / 10)) (digit (n % 10) (omega arith), tt))
]

address-IsWord : (a b c : ℕ) → IsWord (address a b c)
unfolding decimal is_space
address-IsWord a b c = (
  refl,
  (
    refl,
    (
      refl,
      All-append IsDigit (decimal a) (b'.' ∷ (decimal b ++ (b'.' ∷ decimal c)))
          (decimal_digits-words (suc a) a)
          (
            refl,
            All-append IsDigit (decimal b) (b'.' ∷ decimal c) (decimal_digits-words (suc b) b)
                (refl, decimal_digits-words (suc c) c),
          ),
    ),
  ),
)

-- A line of the parts that are drawn, and its record.
abbrev made : Text → ℕ → ℕ → ℕ → Text → Text → ℕ → Text
made stamp a b c method path status =
    join (stamp ∷ address a b c ∷ method ∷ path ∷ decimal status ∷ [])

abbrev record_of : Time → Addr → Text → Text → ℕ → Text → Record
record_of time ip method path status raw = record {
  timestamp = time;
  ip = ip;
  method = method;
  path = path;
  status = pos status;
  raw = raw;
}

parse-made :
    (readers : Readers) (stamp : Text) (time : Time) (ip : Addr) (a b c : ℕ) (method path : Text)
    (status : ℕ)
    → IsWord stamp
    → readers.parse_time stamp ≡ some time
    → readers.parse_addr (address a b c) ≡ some ip
    → IsMethod method
    → IsPath path
    → IsStatus status
    → parse readers (made stamp a b c method path status)
      ≡ ok (record_of time ip method path status (made stamp a b c method path status))
parse-made readers stamp time ip a b c method path status word times addrs (m, allowed) (p, slash)
      (s, number, low, high) =
    ap (parse readers) (sym (append-nil (made stamp a b c method path status)))
    ∙ parse-join readers [] [] stamp (address a b c) (decimal status)
        (record_of time ip method path status (made stamp a b c method path status)) tt tt
        (word, (address-IsWord a b c, (m, (p, (s, tt)))))
        (record {
          words_eq = refl;
          time_eq = times;
          addr_eq = addrs;
          method_ok = allowed;
          path_ok = slash;
          status_eq = number;
          low = low;
          high = high;
          raw_eq = refl;
        })

-- If the random source gives numbers below its bound, the format of a time is a word that reads as a time,
-- and a dotted address reads as an address: a line that the generator makes is accepted by the
-- parser of the log API.
pub make_log_line-accepted :
    {R : Type 0} (intn : ℕ → R → ℕ × R) (format : Time → Text) (readers : Readers)
    (addr : ℕ → ℕ → ℕ → Addr) (read : Time → Time)
    → ((n : ℕ) (r : R) → 0 < n → (intn n r).0 < n)
    → ((t : Time) → IsWord (format t))
    → ((t : Time) → readers.parse_time (format t) ≡ some (read t))
    → ((a b c : ℕ)
        → a < 256
        → b < 256
        → c < 256
        → readers.parse_addr (address a b c) ≡ some (addr a b c))
    → (at : Time) (r : R)
    → (record' : Record) × (parse readers (make_log_line intn format at r).0 ≡ ok record')
      × (record'.timestamp ≡ read (utc at))
      × (record'.raw ≡ (make_log_line intn format at r).0)
unfolding make_log_line
make_log_line-accepted intn format readers addr read below word times addrs at r =
    let (a, r1) = intn 32 r in
    let (b, r2) = intn 255 r1 in
    let (c, r3) = intn 255 r2 in
    let (m, r4) = intn (length methods) r3 in
    let (p, r5) = intn (length paths) r4 in
    let (n, r6) = intn (length statuses) r5 in
    (
      record_of (read (utc at)) (addr a b c) (pick methods m []) (pick paths p [])
          (pick statuses n 0) _,
      parse-made readers (format (utc at)) (read (utc at)) (addr a b c) a b c (pick methods m [])
          (pick paths p []) (pick statuses n 0) (word (utc at)) (times (utc at))
          (addrs a b c (omega (arith, below 32 r)) (omega (arith, below 255 r1))
            (omega (arith, below 255 r2)))
          (pick-All IsMethod methods m [] methods-IsMethod (below 5 r3 (omega arith)))
          (pick-All IsPath paths p [] paths-IsPath (below 9 r4 (omega arith)))
          (pick-All IsStatus statuses n 0 statuses-IsStatus (below 14 r5 (omega arith))),
      refl,
      refl,
    )
