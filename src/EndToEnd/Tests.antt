-- ===== src/EndToEnd/Tests.antt =====
-- A request's whole way on an example: a post whose frames arrive among those of another request.
use selftunnel.Common.{
  true, List, [], ◌∷◌, ◌++◌, ◌∷ʳ◌, map, none, lookup, nat_eq, codes, concat, text_beq, ◌≡◌, refl,
  arith,
}
use selftunnel.Text.{trim_suffix, cut_suffix, has_prefix, cut_prefix}
use selftunnel.Proto.{Frame, frame, request_start}
use selftunnel.Link.{more, eof}
use selftunnel.Server.Relay.{
  Request, request_start_frame, request_chunk_frame, request_end_frame, receives, caller_gone,
  finish, write_response_headers, relay,
}
use selftunnel.Server.Relay.Upload.{fine}
use selftunnel.Client.Address.{is_valid_target}
use selftunnel.Client.Requests.{Requests, Job, consume}
use selftunnel.Client.Requests.View.{view, own_frames}
use selftunnel.Client.Forward.{Outgoing, Exchange, answered, forward, returned}
use selftunnel.EndToEnd.{request_frames, request_answered}

abbrev post : Request
post = record {
  method = codes "POST";
  url_path = codes "/t/ab12cd34/v1";
  raw_query = [];
  header = [];
  has_body = true;
  reads = (1 ∷ 2 ∷ [], more) ∷ (3 ∷ [], eof) ∷ [];
}

abbrev no_requests : Requests
no_requests = record { pending = []; active = []; jobs = []; cancelled = [] }

abbrev arriving : List Frame
arriving =
    request_start_frame 7 (codes "/v1") post
    ∷ record (frame request_start) { req_id = 8 }
    ∷ request_chunk_frame 7 0 (1 ∷ 2 ∷ [])
    ∷ request_chunk_frame 7 1 (3 ∷ [])
    ∷ request_end_frame 7
    ∷ []

own_arriving :
    own_frames 7 arriving ≡ request_frames true 7 (codes "/v1") post ((1 ∷ 2 ∷ []) ∷ []) (3 ∷ [])
unfolding request_start_frame request_chunk_frame
own_arriving = refl

abbrev echo : Outgoing → Exchange
echo o = answered 200 [] ((4 ∷ [], eof) ∷ []) []

local_target : is_valid_target (trim_suffix (codes "http://h/") (codes "/")) ≡ true
unfolding is_valid_target trim_suffix cut_suffix has_prefix cut_prefix text_beq
local_target = refl

request_answered_example :
    (j : Job) × (frames : List Frame) × (view 7 (consume arriving no_requests) ≡ (none, [] ∷ʳ j))
    × (forward echo (codes "http://h/") j.req_id j.start j.body (fine []) ≡ (returned, fine frames))
    × (relay true 7 (codes "/v1") post (map receives frames ++ caller_gone ∷ []) (fine [])
        ≡ finish
            (record (write_response_headers 200 []) { body = concat [] ++ 4 ∷ [] })
            (fine (request_frames true 7 (codes "/v1") post ((1 ∷ 2 ∷ []) ∷ []) (3 ∷ []))))
unfolding request_start_frame lookup
request_answered_example =
    request_answered echo true 7 (codes "/v1") post ((1 ∷ 2 ∷ []) ∷ []) (3 ∷ []) arriving
      no_requests (codes "http://h/") 200 [] [] (4 ∷ []) [] (caller_gone ∷ []) refl (omega arith)
      (omega arith) refl own_arriving local_target refl (omega arith) (omega arith)
