-- ===== src/Client/Forward/Tests.antt =====
-- A forwarded call on examples: the theorems at inputs that meet their hypotheses.
use selftunnel.Common.{
  true, false, List, [], ◌∷◌, ◌++◌, concat, codes, text_beq, ◌≡◌, refl, arith, inl, inr,
}
use selftunnel.Text.{trim_suffix, cut_suffix, has_prefix, cut_prefix}
use selftunnel.Proto.{Frame, frame, request_start}
use selftunnel.Link.{more, eof}
use selftunnel.Server.Relay.Upload.{fine}
use selftunnel.Client.Address.{is_valid_target}
use selftunnel.Client.Forward.{Exchange, failed, answered, forward, returned}
use selftunnel.Client.Forward.Download.{Delivers, forward-Delivers, forward_fails}

abbrev start : Frame
start = record (frame request_start) { req_id = 7; method = codes "GET"; path = codes "/v1" }

abbrev reply : Exchange
reply = answered 200 [] ((1 ∷ 2 ∷ [], more) ∷ (3 ∷ [], eof) ∷ []) []

target_valid : is_valid_target (trim_suffix (codes "http://h/") (codes "/")) ≡ true
unfolding is_valid_target trim_suffix cut_suffix has_prefix cut_prefix text_beq
target_valid = refl

target_bad : is_valid_target (trim_suffix (codes "ftp://h") (codes "/")) ≡ false
unfolding is_valid_target trim_suffix cut_suffix has_prefix cut_prefix text_beq
target_bad = refl

forward-Delivers_example :
    (frames : List Frame) × (forward (λ o. reply) (codes "http://h/") 7 start [] (fine [])
      ≡ (returned, fine frames))
    × Delivers 7 200 [] (concat ((1 ∷ 2 ∷ []) ∷ []) ++ 3 ∷ []) frames
forward-Delivers_example =
    forward-Delivers (λ o. reply) (codes "http://h/") 7 start [] 200 [] ((1 ∷ 2 ∷ []) ∷ []) (3 ∷ [])
      ((1 ∷ 2 ∷ [], more) ∷ (3 ∷ [], eof) ∷ []) [] target_valid refl (inl refl) (omega arith)
      (omega arith)

forward_fails_example :
    (frames : List Frame) × (forward
        (λ o. failed (codes "refused"))
        (codes "http://h/")
        7
        start
        []
        (fine [])
      ≡ (returned, fine frames))
    × Delivers 7 502 [] [] frames
forward_fails_example =
    forward_fails (λ o. failed (codes "refused")) (codes "http://h/") 7 start [] (codes "refused")
      (inr (target_valid, refl))
