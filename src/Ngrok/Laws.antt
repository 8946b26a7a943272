-- ===== src/Ngrok/Laws.antt =====
-- What the manager of internal/ngrok/ngrok.go holds of the ngrok cloud after any history of calls.
use selftunnel.Common.{
  ℕ, true, false, List, [], ◌∷◌, Option, none, some, Text, if◌then◌else◌, nat_beq, ◌≡◌, refl, sym,
  ap, ◌∙◌, arith, text_eq,
}
use selftunnel.Ngrok.{
  Manager, zero_manager, Answers, Effect, agent_made, forwarded, fwd_closed, disconnected,
  StartResult, started, already_running, token_required, agent_failed, forward_failed, agent_with,
  start_if, start, close_endpoint, stop, is_running, running, Command, start_call, stop_call,
  perform,
}

-- What the SDK has given out and not taken back: agents and forwarders, the latest first.
abbrev pub Open : Type 0
Open = List ℕ × List ℕ

abbrev pub without : ℕ → List ℕ → List ℕ
without n [] = []
without n (m ∷ ms) = if nat_beq n m then ms else m ∷ without n ms

abbrev pub applied : Effect → Open → Open
applied (agent_made a) (agents, fwds) = (a ∷ agents, fwds)
applied (forwarded a f port) (agents, fwds) = (agents, f ∷ fwds)
applied (fwd_closed f) (agents, fwds) = (agents, without f fwds)
applied (disconnected a) (agents, fwds) = (without a agents, fwds)

abbrev pub all_applied : List Effect → Open → Open
all_applied [] o = o
all_applied (e ∷ es) o = all_applied es (applied e o)

abbrev pub history_from : Option (List Effect) × Manager → Open → Option (Open × Manager)
history_from (none, m) o = none
history_from (some es, m) o = some (all_applied es o, m)

abbrev pub then_history :
    (Open → Manager → Option (Open × Manager)) → Option (Open × Manager) → Option (Open × Manager)
then_history go none = none
then_history go (some (o, m)) = go o m

-- A history of calls, with what is open at the SDK. `none` is a panic.
unfoldable pub history : List Command → Open → Manager → Option (Open × Manager)
history [] o m = some (o, m)
history (c ∷ cs) o m = then_history (λ p n. history cs p n) (history_from (perform c m) o)

abbrev pub at_most_one : Option ℕ → List ℕ
at_most_one none = []
at_most_one (some n) = n ∷ []

-- The manager has an agent and an address when it has a forwarder, and it alone holds them.
pub record Holds (o : Open) (m : Manager) : Type 0 where
  pub agents_held : o.0 ≡ at_most_one m.agent
  pub fwds_held : o.1 ≡ at_most_one m.fwd
  pub together : is_running m.agent ≡ is_running m.fwd
  pub addressed : is_running m.fwd ≡ false → m.public_url ≡ []

without_self : (n : ℕ) → without n (n ∷ []) ≡ []
without_self n = ground arith

abbrev pub HoldsAfter : Option (Open × Manager) → Type 0
HoldsAfter x = (o : Open) × (m : Manager) × (x ≡ some (o, m)) × Holds o m

start_if-Holds :
    (a f : Option ℕ) (token : Text) (answers : Answers) (port : ℕ) (o : Open) (m : Manager)
    → m.agent ≡ a
    → m.fwd ≡ f
    → Holds o m
    → HoldsAfter (
        history_from
          (some (start_if f token answers port m).1, (start_if f token answers port m).2)
          o)
start_if-Holds a (some f) token answers port o m ea ef h = (o, m, refl, h)
start_if-Holds a none [] answers port o m ea ef h = (o, m, refl, h)
start_if-Holds a none (c ∷ token) answers port o m ea ef h =
    by_answers answers.new_agent answers.forwarder
  where
    idle_fwds : o.1 ≡ []
    idle_fwds = h.fwds_held ∙ ap at_most_one ef

    idle_agents : o.0 ≡ []
    idle_agents = h.agents_held ∙ ap at_most_one (no_agent m.agent (h.together ∙ ap is_running ef))
      where
        no_agent : (x : Option ℕ) → is_running x ≡ false → x ≡ none
        no_agent none e = refl
        no_agent (some x) e = absurd (cc)

    Goal : Option ℕ → Option (ℕ × Text) → Type 0
    Goal n fw =
        HoldsAfter (history_from (some (agent_with n port fw m).1, (agent_with n port fw m).2) o)

    by_answers : (n : Option ℕ) (fw : Option (ℕ × Text)) → Goal n fw
    by_answers none fw = (o, m, refl, h)
    by_answers (some n) none = (
      (without n (n ∷ o.0), o.1),
      m,
      refl,
      record {
        agents_held = rw (idle_agents, without_self n) (sym (sym h.agents_held ∙ idle_agents));
        fwds_held = h.fwds_held;
        together = h.together;
        addressed = h.addressed;
      },
    )
    by_answers (some n) (some (f, url)) = (
      (n ∷ o.0, f ∷ o.1),
      record { agent = some n; fwd = some f; public_url = url },
      refl,
      record {
        agents_held = rw idle_agents refl;
        fwds_held = rw idle_fwds refl;
        together = refl;
        addressed = λ e. absurd (cc);
      },
    )

stop-Holds :
    (a f : Option ℕ) (o : Open) (m : Manager)
    → m.agent ≡ a
    → m.fwd ≡ f
    → Holds o m
    → HoldsAfter (
        history_from (close_endpoint a f, record m { agent = none; fwd = none; public_url = [] }) o)
stop-Holds none none o m ea ef h = (
  o,
  zero_manager,
  refl,
  record {
    agents_held = h.agents_held ∙ ap at_most_one ea;
    fwds_held = h.fwds_held ∙ ap at_most_one ef;
    together = refl;
    addressed = λ e. refl;
  },
)
stop-Holds none (some f) o m ea ef h = absurd (cc (h.together, ap is_running ea, ap is_running ef))
stop-Holds (some a) none o m ea ef h = absurd (cc (h.together, ap is_running ea, ap is_running ef))
stop-Holds (some a) (some f) o m ea ef h = (
  (without a o.0, without f o.1),
  zero_manager,
  refl,
  record {
    agents_held = rw (h.agents_held, ea) (without_self a);
    fwds_held = rw (h.fwds_held, ef) (without_self f);
    together = refl;
    addressed = λ e. refl;
  },
)

perform-Holds :
    (c : Command) (o : Open) (m : Manager) → Holds o m → HoldsAfter (history_from (perform c m) o)
unfolding perform start stop
perform-Holds (start_call answers token port) o m h =
    start_if-Holds m.agent m.fwd token answers port o m refl refl h
perform-Holds stop_call o m h = stop-Holds m.agent m.fwd o m refl refl h

history_on-Holds :
    (cs : List Command) (o : Open) (m : Manager) → Holds o m → HoldsAfter (history cs o m)
unfolding history
history_on-Holds [] o m h = (o, m, refl, h)
history_on-Holds (c ∷ cs) o m h =
    let (p, n, e, k) = perform-Holds c o m h in
    let (q, m', e', k') = history_on-Holds cs p n k in
    (q, m', ap (then_history (λ x y. history cs x y)) e ∙ e', k')

-- Whatever the SDK answers, a history of starts and stops from the zero manager does not panic, and
-- after it the manager has an agent exactly when it has a forwarder, no address when it has none, and
-- at the SDK just the agent and the forwarder of the manager are open: none that was made is lost.
pub history-Holds :
    (cs : List Command)
    → (o : Open) × (m : Manager) × (history cs ([], []) zero_manager ≡ some (o, m)) × Holds o m
history-Holds cs =
    history_on-Holds cs ([], []) zero_manager
      (record { agents_held = refl; fwds_held = refl; together = refl; addressed = λ e. refl })

-- What a start promises about the manager after it.
abbrev pub Settled : StartResult → Manager → Manager → Type 0
Settled (started url) m m' = (running m ≡ false) × (running m' ≡ true) × (m'.public_url ≡ url)
Settled already_running m m' = (running m ≡ true) × (m' ≡ m)
Settled token_required m m' = (running m ≡ false) × (m' ≡ m)
Settled agent_failed m m' = (running m ≡ false) × (m' ≡ m)
Settled forward_failed m m' = (running m ≡ false) × (m' ≡ m)

-- A start that succeeds finds the manager stopped and leaves it running with the address that it
-- returned; one that fails, for whatever reason, leaves the manager as it was.
pub start-Settled :
    (answers : Answers) (token : Text) (port : ℕ) (m : Manager)
    → Settled (start answers token port m).0 m (start answers token port m).2
unfolding start running
start-Settled answers token port m = by_fwd m.fwd token refl
  where
    by_answers :
        (n : Option ℕ) (fw : Option (ℕ × Text))
        → m.fwd ≡ none
        → Settled (agent_with n port fw m).0 m (agent_with n port fw m).2
    by_answers none fw e = (ap is_running e, refl)
    by_answers (some n) none e = (ap is_running e, refl)
    by_answers (some n) (some (f, url)) e = (ap is_running e, refl, refl)

    by_fwd :
        (o : Option ℕ) (tok : Text)
        → m.fwd ≡ o
        → Settled (start_if o tok answers port m).0 m (start_if o tok answers port m).2
    by_fwd (some f) tok e = (ap is_running e, refl)
    by_fwd none [] e = (ap is_running e, refl)
    by_fwd none (c ∷ tok) e = by_answers answers.new_agent answers.forwarder e
