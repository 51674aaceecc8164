-- ===== src/Runtime/Handshake/Follows.antt =====
-- A handshake against what has happened.
use swbt_rs.Base.{
  ℕ, ◌≡◌, refl, sym, ◌∙◌, Bool, true, false, ◌&&◌, ◌||◌, Option, Only, arith, if◌then◌else◌,
}
use swbt_rs.Protocol.Session.{protocol_ready}
use swbt_rs.Runtime.Handshake.{
  Handshake, HandshakeCompletionCondition, first_subcommand, until_ready, is_satisfied,
  opened_channel, stop_bootstrap,
}
use swbt_rs.Runtime.Scheduler.{ReportScheduler}
use swbt_rs.Runtime.Transport.{Io, HidChannel, control, interrupt}
use swbt_rs.Runtime.Handshake.Seen.{Seen, channel_up, holds, step_seen}

pub or_true : (a : Bool) → a || true ≡ true
or_true true = refl
or_true false = refl

pub or_false : (a : Bool) → a || false ≡ a
or_false true = refl
or_false false = refl

pub Only-true : (b x : Bool) → Only b x → b ≡ true → x ≡ true
Only-true true x h e = h
Only-true false x h e = absurd (ground (arith, e))

weaker : (b x y : Bool) → Only b x → Only b (x || y)
weaker false x y h = tt
weaker true x y h = rw h refl

pub same_condition :
    {T : Type 0} (condition : HandshakeCompletionCondition) (io : Io T)
    → is_satisfied condition io.observed (protocol_ready io.sender.committed.session)
      ≡ holds condition io
unfolding is_satisfied
same_condition first_subcommand io = refl
same_condition until_ready io = refl

pub second_of_and : (a b : Bool) → a && b ≡ true → b ≡ true
second_of_and true b h = h
second_of_and false b h = absurd (ground (arith, h))

pub by_both {ℓ} :
    {A B : Type 0} (P : A → B → Type ℓ) (b b' : Bool) {x x' : A} {y y' : B}
    → b ≡ b'
    → P x y
    → P x' y'
    → P (if b then x else x') (if b' then y else y')
by_both P true true e h h' = h
by_both P false false e h h' = h'
by_both P true false e h h' = absurd (ground (arith, e))
by_both P false true e h h' = absurd (ground (arith, e))

-- The flags of a handshake are what was seen, and its bootstrap stops only once the condition was met.
pub record Follows (session_id : ℕ) (condition : HandshakeCompletionCondition) (h : Handshake)
    (seen : Seen) : Type 0 where
  pub own_session : h.session_id ≡ session_id
  pub own_condition : h.completion_condition ≡ condition
  pub same_link : h.link_observed ≡ seen.link_up
  pub same_control : h.control_observed ≡ seen.control_up
  pub same_interrupt : h.interrupt_observed ≡ seen.interrupt_up
  pub same_sent : h.bootstrap_accepted ≡ seen.sent
  pub stopped_met : Only h.bootstrap_stopped seen.met

module _ (session_id : ℕ) (condition : HandshakeCompletionCondition) where
  abbrev Same : Handshake → Seen → Type 0
  Same = Follows session_id condition

  pub retried :
      (h : Handshake) (seen : Seen) (retry : Option ReportScheduler)
      → Same h seen
      → Same (record h { retry = retry }) seen
  retried h seen retry s = record {
    own_session = s.own_session;
    own_condition = s.own_condition;
    same_link = s.same_link;
    same_control = s.same_control;
    same_interrupt = s.same_interrupt;
    same_sent = s.same_sent;
    stopped_met = s.stopped_met;
  }

  pub waits :
      {T : Type 0} (h : Handshake) (seen : Seen) (same : Bool) (io : Io T)
      → Same h seen
      → Same h (step_seen condition same false io seen)
  waits h seen same io s = record {
    own_session = s.own_session;
    own_condition = s.own_condition;
    same_link = s.same_link;
    same_control = s.same_control;
    same_interrupt = s.same_interrupt;
    same_sent = s.same_sent ∙ sym (or_false seen.sent);
    stopped_met = weaker h.bootstrap_stopped seen.met _ s.stopped_met;
  }

  -- A report was accepted, and the condition does not hold yet.
  pub accepted :
      {T : Type 0} (h : Handshake) (seen : Seen) (same : Bool) (io : Io T)
      → Same h seen
      → Same (record h { bootstrap_accepted = true }) (step_seen condition same true io seen)
  accepted h seen same io s = record {
    own_session = s.own_session;
    own_condition = s.own_condition;
    same_link = s.same_link;
    same_control = s.same_control;
    same_interrupt = s.same_interrupt;
    same_sent = sym (or_true seen.sent);
    stopped_met = weaker h.bootstrap_stopped seen.met _ s.stopped_met;
  }

  pub stopped :
      (h : Handshake) (seen : Seen) → Same h seen → seen.met ≡ true → Same (stop_bootstrap h) seen
  unfolding stop_bootstrap
  stopped h seen s met = record {
    own_session = s.own_session;
    own_condition = s.own_condition;
    same_link = s.same_link;
    same_control = s.same_control;
    same_interrupt = s.same_interrupt;
    same_sent = s.same_sent;
    stopped_met = met;
  }

  pub met_now :
      (a same sent c : Bool)
      → same ≡ true
      → sent ≡ true
      → c ≡ true
      → a || (same && (sent && c)) ≡ true
  met_now a same sent c e1 e2 e3 = rw (e1, e2, e3) (or_true a)

  pub linked :
      (h : Handshake) (seen : Seen)
      → Same h seen
      → Same (record h { link_observed = true }) (record seen { link_up = true })
  linked h seen s = record {
    own_session = s.own_session;
    own_condition = s.own_condition;
    same_link = refl;
    same_control = s.same_control;
    same_interrupt = s.same_interrupt;
    same_sent = s.same_sent;
    stopped_met = s.stopped_met;
  }

  pub opened :
      (c : HidChannel) (h : Handshake) (seen : Seen)
      → Same h seen
      → Same (opened_channel h c) (channel_up c seen)
  opened control h seen s = record {
    own_session = s.own_session;
    own_condition = s.own_condition;
    same_link = s.same_link;
    same_control = refl;
    same_interrupt = s.same_interrupt;
    same_sent = s.same_sent;
    stopped_met = s.stopped_met;
  }
  opened interrupt h seen s = record {
    own_session = s.own_session;
    own_condition = s.own_condition;
    same_link = s.same_link;
    same_control = s.same_control;
    same_interrupt = refl;
    same_sent = s.same_sent;
    stopped_met = s.stopped_met;
  }
