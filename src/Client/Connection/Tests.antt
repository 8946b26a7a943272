-- ===== src/Client/Connection/Tests.antt =====
-- The connection loop on examples: the theorems at inputs that meet their hypotheses.
use selftunnel.Common.{
  ◌-◌, ◌+◌, ◌*◌, ◌/◌, ◌≤◌, true, false, List, [], ◌∷◌, Text, codes, length, ◌≡◌, refl, arith,
  lookup, insert, text_beq, map,
}
use selftunnel.Text.{trim_space, trim_left, trim_right, to_lower, is_space, lower_rune}
use selftunnel.TunnelId.{id_re_matches, all_id_runes, is_id_rune}
use selftunnel.Base64.{encode_raw_url, url_letter, letter}
use selftunnel.Proto.{Frame, frame, hello_ack}
use selftunnel.Server.Intake.{ack_frame}
use selftunnel.Server.Registry.{
  missing, records, to_record, registered, register, claim, issue_secret, issue, save_locked,
  clean_desired,
}
use selftunnel.Server.Registry.Tests.{demo_hash, supply, desired_id, mine}
use selftunnel.Client.Connection.{
  Client, Config, greeted, waiting, Move, begins, dials, publishes, greets, prevents, read_ends,
  wakes, stops, cancels, reconnects, no_reply, replies, new_client, run, start, hello_frame, adopt,
  accepted, move, begin, rearm, publish, greet, prevent_sleep, after_pass, begin_backoff,
  close_client, stop_client, reconnect, doubled, initial_backoff, delay, jitter_bound,
}
use selftunnel.Client.Connection.Backoff.{delay_bounds}
use selftunnel.Client.Connection.Steady.{IsSteady, run-start}
use selftunnel.Client.Connection.Stopping.{stop_waiting, stop_greeted, OnlineStopped, AwakeReturned}
use selftunnel.Client.Connection.Restart.{is_reused, restart_forgets, restart_reclaims}

abbrev config : Text → Config
config custom_id = record {
  server = codes "wss://relay/ws/tunnel";
  target = codes "http://127.0.0.1:80";
  custom_id = custom_id;
  tunnel_id = [];
  secret = [];
}

abbrev ack : Frame
ack = record (frame hello_ack) { ok = true; tunnel_id = desired_id; secret = codes "AQID" }

abbrev moves : List Move
moves =
    begins
    ∷ dials true
    ∷ publishes
    ∷ greets true (replies ack)
    ∷ prevents
    ∷ reconnects
    ∷ read_ends
    ∷ begins
    ∷ dials false
    ∷ wakes false
    ∷ begins
    ∷ dials true
    ∷ publishes
    ∷ greets true no_reply
    ∷ stops
    ∷ cancels
    ∷ wakes true
    ∷ []

run-start_example : IsSteady (run moves (start (config []) (codes "config.json")))
unfolding run move begin rearm publish greet adopt accepted prevent_sleep after_pass begin_backoff
    close_client stop_client reconnect doubled new_client
run-start_example = run-start moves (config []) (codes "config.json") (
  refl,
  (
    refl,
    (
      refl,
      (
        refl,
        (
          refl,
          (
            refl,
            (
              refl,
              (refl, (refl, (refl, (refl, (refl, (refl, (refl, (refl, (refl, (refl, tt)))))))))),
            ),
          ),
        ),
      ),
    ),
  ),
)

delay_bounds_example :
    (initial_backoff - initial_backoff / 5 ≤ delay initial_backoff 7)
    × (delay initial_backoff 7 ≤ initial_backoff + initial_backoff / 5)
    × (delay initial_backoff 7 ≤ 72 * 1000000000)
delay_bounds_example =
    delay_bounds initial_backoff 7 (omega arith) (unfold jitter_bound in omega arith)

abbrev fresh : Client
fresh = new_client (config []) []

stop_waiting_example : OnlineStopped (
    run
      (stops
        ∷ wakes false
        ∷ begins
        ∷ dials true
        ∷ publishes
        ∷ greets true (replies ack)
        ∷ prevents
        ∷ [])
      (record { phase = waiting; ctx_done = false; client = fresh }))
stop_waiting_example =
    stop_waiting (record { phase = waiting; ctx_done = false; client = fresh }) true ack refl refl
      (unfold accepted in refl)

stop_greeted_example : AwakeReturned (
    run
      (stops ∷ prevents ∷ read_ends ∷ stops ∷ [])
      (record { phase = greeted; ctx_done = false; client = fresh }))
stop_greeted_example =
    stop_greeted (record { phase = greeted; ctx_done = false; client = fresh }) refl

restart_forgets_example :
    is_reused
      (register demo_hash supply
        (hello_frame (adopt true ack fresh).cfg).desired_id
        (hello_frame (adopt true ack fresh).cfg).secret
        ((desired_id, mine) ∷ [])
        missing).0
    ≡ false
restart_forgets_example =
    restart_forgets demo_hash supply true ack fresh ((desired_id, mine) ∷ []) missing
      (unfold new_client in refl)

abbrev named : Client
named = record fresh { cfg = config desired_id }

demo_digest : (s : Text) → length (demo_hash s) ≡ 32
unfolding demo_hash
demo_digest s = refl

first_call :
    register demo_hash supply
      (hello_frame named.cfg).desired_id
      (hello_frame named.cfg).secret
      []
      missing
    ≡ (
      registered named.cfg.custom_id false false (codes "AQID"),
      (desired_id, mine) ∷ [],
      records (map to_record ((desired_id, mine) ∷ [])),
    )
unfolding hello_frame register claim issue_secret issue save_locked encode_raw_url url_letter letter
    insert lookup text_beq clean_desired trim_space trim_left trim_right is_space to_lower
    lower_rune id_re_matches all_id_runes is_id_rune
first_call = refl

restart_reclaims_example :
    register demo_hash supply
      (hello_frame
        (adopt true
          (ack_frame named.cfg.custom_id false false (codes "AQID"))
          named).cfg).desired_id
      (hello_frame
        (adopt true (ack_frame named.cfg.custom_id false false (codes "AQID")) named).cfg).secret
      ((desired_id, mine) ∷ [])
      missing
    ≡ (registered named.cfg.custom_id true false [], (desired_id, mine) ∷ [], missing)
restart_reclaims_example =
    restart_reclaims demo_hash supply supply named true false (codes "AQID") b'A' (codes "QID") []
      ((desired_id, mine) ∷ []) missing (records (map to_record ((desired_id, mine) ∷ []))) missing
      demo_digest (omega arith) refl first_call
