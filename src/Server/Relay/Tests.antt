-- ===== src/Server/Relay/Tests.antt =====
-- The relay on examples: the theorems at inputs that meet their hypotheses.
use selftunnel.Common.{
  true, false, List, [], ◌∷◌, some, Text, codes, lookup, text_eq, text_beq, ◌≡◌, refl, inr,
}
use selftunnel.Text.{to_lower, lower_rune, equal_fold, fold_rune}
use selftunnel.Proto.{Headers, frame, response_start, response_chunk}
use selftunnel.Link.{more, eof}
use selftunnel.Server.Relay.{is_hop_by_hop, member, Request, Event, receives, timer_fires, relay}
use selftunnel.Server.Relay.Paths.{is_skipped}
use selftunnel.Server.Relay.Upload.{fine}
use selftunnel.Server.Relay.Answer.{HasStatus, relay_answers}

abbrev id : Text
id = codes "ab12cd34"

abbrev headers : Headers
headers =
    (codes "Connection", codes "close" ∷ [])
    ∷ (codes "Accept", codes "text/html" ∷ codes "*/*" ∷ [])
    ∷ (codes "CONTENT-length", codes "3" ∷ [])
    ∷ []

accept_found : lookup (codes "Accept") headers ≡ some (codes "text/html" ∷ codes "*/*" ∷ [])
unfolding lookup text_beq
accept_found = refl

accept_kept : is_skipped (codes "Accept") ≡ false
unfolding is_hop_by_hop member to_lower lower_rune equal_fold fold_rune text_beq
accept_kept = refl

abbrev request : Request
request = record {
  method = codes "POST";
  url_path = codes "/t/ab12cd34/v1";
  raw_query = [];
  header = headers;
  has_body = true;
  reads = (1 ∷ 2 ∷ [], more) ∷ (3 ∷ [], eof) ∷ [];
}

abbrev events : List Event
events =
    receives (record (frame response_start) { req_id = 7; status = 200 })
    ∷ receives (record (frame response_chunk) { req_id = 7; payload = codes "AQID" })
    ∷ timer_fires
    ∷ []

relay_answers_example :
    ((relay true 7 (codes "/v1") request events (fine [])).finished ≡ true)
    × HasStatus (relay true 7 (codes "/v1") request events (fine [])).response
relay_answers_example = relay_answers true 7 (codes "/v1") request events (fine []) (inr refl) refl
