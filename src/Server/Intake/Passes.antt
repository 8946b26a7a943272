-- ===== src/Server/Intake/Passes.antt =====
-- One pass of the read loop.
use selftunnel.Common.{ℕ, true, List, some, Text, lookup, nat_eq, text_eq, ◌≡◌, inl, inr, ◌⊎◌}
use selftunnel.Proto.{Frame, hello, other}
use selftunnel.Server.Session.{Session, touch}
use selftunnel.Server.Registry.{Supply}
use selftunnel.Server.Intake.{Server, put_session}
use selftunnel.Server.Intake.ReadLoop.{
  Incoming, arrives, garbage, goes_on, Choices, on_hello, on_frame, pass_found, read_pass,
}

module _ (sha256 : Text → List ℕ) where
  -- A second hello, a payload that is no frame and a frame of an unknown type change the session's time
  -- of receipt and nothing else, and the loop goes on.
  pub read_pass_ignores :
      (w : Supply) (c : Choices) (h : ℕ) (m : Incoming) (s : Session) (srv : Server)
      → lookup h srv.sessions ≡ some s
      → (m ≡ garbage)
        ⊎ ((f : Frame) × (m ≡ arrives f) × (f.type ≡ hello) × (s.hello_done ≡ true))
        ⊎ ((f : Frame) × (x : Text) × (m ≡ arrives f) × (f.type ≡ other x))
      → read_pass sha256 w c h m srv ≡ some (goes_on, put_session h (touch w.now s) srv)
  unfolding read_pass on_frame on_hello touch
  read_pass_ignores w c h m s srv e (inl g) = rw (e, pass_found, g)
  read_pass_ignores w c h m s srv e (inr (inl (f, a, t, d))) = rw (e, pass_found, a, t, on_frame, d)
  read_pass_ignores w c h m s srv e (inr (inr (f, x, a, t))) = rw (e, pass_found, a, t, on_frame)
