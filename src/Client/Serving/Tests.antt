-- ===== src/Client/Serving/Tests.antt =====
-- The read loop on an example.
use selftunnel.Common.{List, [], ◌∷◌, codes, ◌≡◌, refl, text_beq}
use selftunnel.Proto.{Frame, frame, ping, set_target, get_stats}
use selftunnel.Text.{has_prefix, cut_prefix, trim_space, trim_left, trim_right, is_space}
use selftunnel.Client.Address.{is_valid_target}
use selftunnel.Client.Serving.{Serving, serve, on_server_frame}

abbrev serving : Serving
serving = record {
  target = codes "http://a";
  requests = record { pending = []; active = []; jobs = []; cancelled = [] };
  sent = [];
}

abbrev frames : List Frame
frames =
    record (frame ping) { ts = 5 }
    ∷ record (frame set_target) { target = codes "ftp://b" }
    ∷ record (frame set_target) { target = codes "https://b" }
    ∷ frame get_stats
    ∷ []

-- A target without an HTTP scheme is not taken.
retargeted : (serve frames serving).target ≡ codes "https://b"
unfolding serve on_server_frame is_valid_target has_prefix cut_prefix trim_space trim_left
    trim_right is_space text_beq
retargeted = refl
