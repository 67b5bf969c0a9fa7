-- ===== src/Tests/Bulk.antt =====
-- A bulk request to an Elasticsearch that indexes whatever it is sent.
use log_service.Prelude.{
  ℕ, zero, suc, ◌≤◌, ◌<◌, ◌≡◌, refl, Bool, true, false, sym, ap, ◌∙◌, inl, List, [], ◌∷◌, ◌++◌, map,
  Option, none, some, length, length-append, get_elem?, arith,
}
use log_service.Prelude.Int.{pos}
use log_service.Prelude.Clock.{Time, zero_time}
use log_service.Prelude.Text.{Text, codes}
use log_service.LogEvent.{Event}
use log_service.Spool.Lines.{newline}
use log_service.Storage.{BulkItem, BulkResponse, Answer, Client, bulk_body, bulk_index}
use log_service.Storage.Settles.{BulkApi, IsSettled, bulk_index-IsSettled}
use log_service.Tests.Samples.{codec, event}

abbrev created : BulkItem
created = (codes "index", record { status = pos 201; error_type = []; error_reason = [] }) ∷ []

-- The answer's body is the request's, and has an item for each of its runes, more than there are events.
abbrev pub client : Client Bool
client = record {
  codec = codec;
  format_index = λ t. codes "logs";
  encode_action = λ name. some name;
  decode_response = λ payload. some (record { errors = false; items = map (λ c. created) payload });
  parse_duration = λ t. none;
  now = λ s. zero_time;
  post = λ body s. (some (record { status = 200; retry_after = []; body = some body }), true);
}

long :
    (at : Time) (events : List Event) (body : Text)
    → bulk_body client at events ≡ some body
    → length events ≤ length body
unfolding bulk_body
long at [] body p = omega arith
long at (e ∷ events) body p =
    added (codec.marshal e) (bulk_body client at events) (long at events) p
  where
    added :
        (document rest : Option Text)
        → ((body : Text) → rest ≡ some body → length events ≤ length body)
        → (elim document [
          | none ↦ none
          | some d ↦ elim rest [
            | none ↦ none
            | some b ↦ some (codes "logs" ++ (newline ∷ (d ++ (newline ∷ b))))
          ]
        ])
          ≡ some body
        → length (e ∷ events) ≤ length body
    added none rest k q = absurd cc
    added (some d) none k q = absurd cc
    added (some d) (some b) k q =
        let same : codes "logs" ++ (newline ∷ (d ++ (newline ∷ b))) ≡ body = cc in
        rw (← same) (omega (arith, length-append d (newline ∷ b), k b refl))

item_at :
    (body : Text) (i : ℕ) → i < length body → get_elem? (map (λ c. created) body) i ≡ some created
item_at [] i h = absurd (omega arith)
item_at (c ∷ body) zero h = refl
item_at (c ∷ body) (suc i) h = item_at body i (omega arith)

index_below :
    (events : List Event) (i : ℕ) (e : Event) → get_elem? events i ≡ some e → i < length events
index_below [] i e h = absurd cc
index_below (x ∷ events) zero e h = omega arith
index_below (x ∷ events) (suc i) e h = omega (arith, index_below events i e h)

abbrev pub Landed : Event → Bool → Type 0
Landed e s = s ≡ true

items_read :
    (payload : Text) (response : BulkResponse)
    → client.decode_response payload ≡ some response
    → response.items ≡ map (λ c. created) payload
items_read payload response p =
    let same : response ≡ record { errors = false; items = map (λ c. created) payload } = cc in
    ap (λ r. r.items) same

payload_sent :
    (body payload : Text) (res : Answer)
    → (client.post body false).0 ≡ some res
    → res.body ≡ some payload
    → body ≡ payload
payload_sent body payload res p q =
    let same : record { status = 200; retry_after = []; body = some body } ≡ res = cc in
    let both : some body ≡ some payload = ap (λ r. r.body) same ∙ q in cc

pub client-BulkApi : BulkApi client Landed
client-BulkApi = record {
  answers = λ events s body payload res response made sent good got read i e at_e.
      let enough : i < length body =
        omega (arith, long zero_time events body made, index_below events i e at_e) in
      (
        created,
        rw (items_read payload response read, sym (payload_sent body payload res sent got))
            (item_at body i enough),
        λ h. refl,
      );
}

bulk_index-IsSettled_example : IsSettled Landed event (bulk_index client (event ∷ []) false)
bulk_index-IsSettled_example =
    bulk_index-IsSettled client Landed event client-BulkApi (event ∷ []) false (inl refl)
