-- ===== src/Client/Serving/Laws.antt =====
-- The read loop's effect on the target and on the requests.
use selftunnel.Common.{
  true, List, [], ◌∷◌, Text, if◌then◌else◌, ◌≡◌, ◌⊎◌, inl, inr, refl, ap, ◌∙◌, Bool-cases,
}
use selftunnel.Proto.{
  Frame, FrameType, hello, hello_ack, ping, pong, set_target, set_target_ack, get_stats, stats,
  response_start, response_chunk, response_end, other, request_start, request_chunk, request_end,
  cancel,
}
use selftunnel.Client.Address.{is_valid_target}
use selftunnel.Client.Requests.{on_request_frame, consume}
use selftunnel.Client.Serving.{Serving, on_server_frame, serve}

abbrev pub Kept : Text → Text → Type 0
Kept before after = (after ≡ before) ⊎ (is_valid_target after ≡ true)

chosen : (new old : Text) → Kept old (if is_valid_target new then new else old)
chosen new old = elim (Bool-cases (is_valid_target new)) [
  | inl t ↦ rw t (inr t)
  | inr f ↦ rw f (inl refl)
]

frame-Kept :
    (t : FrameType) (f : Frame) (s : Serving) → Kept s.target (on_server_frame t f s).target
unfolding on_server_frame
frame-Kept hello f s = inl refl
frame-Kept hello_ack f s = inl refl
frame-Kept ping f s = inl refl
frame-Kept pong f s = inl refl
frame-Kept set_target f s = chosen f.target s.target
frame-Kept set_target_ack f s = inl refl
frame-Kept get_stats f s = inl refl
frame-Kept stats f s = inl refl
frame-Kept response_start f s = inl refl
frame-Kept response_chunk f s = inl refl
frame-Kept response_end f s = inl refl
frame-Kept request_start f s = inl refl
frame-Kept request_chunk f s = inl refl
frame-Kept request_end f s = inl refl
frame-Kept cancel f s = inl refl
frame-Kept (other x) f s = inl refl

frame-requests :
    (t : FrameType) (f : Frame) (s : Serving)
    → (on_server_frame t f s).requests ≡ on_request_frame t f s.requests
unfolding on_server_frame on_request_frame
frame-requests hello f s = refl
frame-requests hello_ack f s = refl
frame-requests ping f s = refl
frame-requests pong f s = refl
frame-requests set_target f s = refl
frame-requests set_target_ack f s = refl
frame-requests get_stats f s = refl
frame-requests stats f s = refl
frame-requests response_start f s = refl
frame-requests response_chunk f s = refl
frame-requests response_end f s = refl
frame-requests request_start f s = refl
frame-requests request_chunk f s = refl
frame-requests request_end f s = refl
frame-requests cancel f s = refl
frame-requests (other x) f s = refl

Kept-trans : (a b c : Text) → Kept a b → Kept b c → Kept a c
Kept-trans a b c p (inr v) = inr v
Kept-trans a b c p (inl e) = rw e p

-- Whatever the server sends, the client's target is the one that it had or an `http` or `https` URL.
pub serve-Kept : (fs : List Frame) (s : Serving) → Kept s.target (serve fs s).target
unfolding serve
serve-Kept [] s = inl refl
serve-Kept (f ∷ fs) s =
    let s' = on_server_frame f.type f s in
    Kept-trans s.target s'.target (serve fs s').target (frame-Kept f.type f s) (serve-Kept fs s')

-- The requests of the client are those of its request frames alone, whatever stands between them.
pub serve-requests : (fs : List Frame) (s : Serving) → (serve fs s).requests ≡ consume fs s.requests
unfolding serve consume
serve-requests [] s = refl
serve-requests (f ∷ fs) s =
    serve-requests fs (on_server_frame f.type f s) ∙ ap (consume fs) (frame-requests f.type f s)
