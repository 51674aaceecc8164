-- ===== src/Runtime/Command/Order.antt =====
-- The answers come in the order of the commands.
use swbt_rs.Base.{
  ℕ, zero, suc, ◌≡◌, refl, sym, ◌∙◌, ap, false, Option, none, some, List, [], ◌∷◌, ◌++◌, by_test,
  Result, ok, err,
}
use mathlib.Core.List.{append_assoc, append-nil}
use swbt_rs.Runtime.Command.{
  CommandChannel, CommandEnqueueError, CommandDeliveryError, command_channel, sent_to, try_enqueue,
  received, next_unless, try_next, respond, still_waiting, deliver_one, deliver_rest, deliver,
}
use swbt_rs.Runtime.Worker.Types.{CommandResult, WorkerCommandProgress, complete, pending}

-- 0, 1, .., n - 1.
unfoldable pub numbers_below : ℕ → List ℕ
numbers_below zero = []
numbers_below (suc n) = numbers_below n ++ (n ∷ [])

unfoldable pub answered : List (ℕ × CommandResult) → List ℕ
answered [] = []
answered ((completion, _) ∷ answers) = completion ∷ answered answers

unfoldable pub queued : {C : Type 0} → List (C × ℕ) → List ℕ
queued [] = []
queued ((_, completion) ∷ queue) = completion ∷ queued queue

abbrev pub held : Option ℕ → List ℕ
held none = []
held (some completion) = completion ∷ []

answered-append :
    (answers : List (ℕ × CommandResult)) (completion : ℕ) (result : CommandResult)
    → answered (answers ++ ((completion, result) ∷ [])) ≡ answered answers ++ (completion ∷ [])
unfolding answered
answered-append [] completion result = refl
answered-append ((c, r) ∷ answers) completion result =
    ap (λ l. c ∷ l) (answered-append answers completion result)

module _ {C : Type 0} where
  -- The requests that were accepted are, in their order, those answered, the one in flight and those
  -- in the queue.
  abbrev pub InOrder : CommandChannel C → Type 0
  InOrder channel =
      answered channel.answers ++ (held channel.in_flight ++ queued channel.queue)
      ≡ numbers_below channel.issued

  sent_to-InOrder :
      (channel : CommandChannel C) (command : C) (queue : List (C × ℕ))
      → channel.queue ≡ queue
      → InOrder channel
      → InOrder (sent_to channel command queue).0
  unfolding queued numbers_below
  sent_to-InOrder channel command [] e h =
      let h' = rw e at h in
      ap (λ l. answered channel.answers ++ l)
        (ap (λ l. l ++ (channel.issued ∷ [])) (sym (append-nil (held channel.in_flight))))
      ∙ sym (
          append_assoc (answered channel.answers) (held channel.in_flight ++ [])
            (channel.issued ∷ []))
      ∙ ap (λ l. l ++ (channel.issued ∷ [])) h'
  sent_to-InOrder channel command (_ ∷ _) e h = h

  try_enqueue-InOrder :
      (channel : CommandChannel C) (command : C)
      → InOrder channel
      → InOrder (try_enqueue channel command).0
  unfolding try_enqueue
  try_enqueue-InOrder channel command h =
      by_test {A = CommandChannel C × Result CommandEnqueueError ℕ} (λ r. InOrder r.0)
        channel.receiver_alive (λ _. sent_to-InOrder channel command channel.queue refl h) λ _. h

  received-InOrder :
      (channel : CommandChannel C) (queue : List (C × ℕ))
      → channel.in_flight ≡ none
      → channel.queue ≡ queue
      → InOrder channel
      → InOrder (received channel queue).0
  unfolding queued
  received-InOrder channel [] e e' h = h
  received-InOrder channel ((command, completion) ∷ queue) e e' h = rw e at (rw e' at h)

  next_unless-InOrder :
      (channel : CommandChannel C) (in_flight : Option ℕ)
      → channel.in_flight ≡ in_flight
      → InOrder channel
      → InOrder (next_unless channel in_flight).0
  next_unless-InOrder channel none e h = received-InOrder channel channel.queue e refl h
  next_unless-InOrder channel (some _) e h = h

  respond-InOrder :
      (channel : CommandChannel C) (result : CommandResult) (in_flight : Option ℕ)
      → channel.in_flight ≡ in_flight
      → InOrder channel
      → InOrder (respond channel result in_flight).0
  respond-InOrder channel result none e h = h
  respond-InOrder channel result (some completion) e h =
      ap (λ l. l ++ queued channel.queue) (answered-append channel.answers completion result)
      ∙ append_assoc (answered channel.answers) (completion ∷ []) (queued channel.queue)
      ∙ (rw e at h)

  still_waiting-InOrder :
      (channel : CommandChannel C) (in_flight : Option ℕ)
      → InOrder channel
      → InOrder (still_waiting channel in_flight).0
  still_waiting-InOrder channel none h = h
  still_waiting-InOrder channel (some _) h = h

  deliver_one-InOrder :
      (channel : CommandChannel C) (result : WorkerCommandProgress)
      → InOrder channel
      → InOrder (deliver_one channel result).0
  deliver_one-InOrder channel pending h = still_waiting-InOrder channel channel.in_flight h
  deliver_one-InOrder channel (complete result) h =
      respond-InOrder channel result channel.in_flight refl h

  deliver_rest-InOrder :
      (results : List WorkerCommandProgress)
      (done : CommandChannel C × Result CommandDeliveryError (Unit {0}))
      → ((channel : CommandChannel C) → InOrder channel → InOrder (deliver results channel).0)
      → InOrder done.0
      → InOrder (deliver_rest (deliver results) done).0
  deliver_rest-InOrder results (channel, err e) rest h = h
  deliver_rest-InOrder results (channel, ok _) rest h = rest channel h

  deliver-InOrder :
      (results : List WorkerCommandProgress) (channel : CommandChannel C)
      → InOrder channel
      → InOrder (deliver results channel).0
  unfolding deliver
  deliver-InOrder [] channel h = h
  deliver-InOrder (result ∷ results) channel h =
      deliver_rest-InOrder results (deliver_one channel result)
        (λ channel h. deliver-InOrder results channel h) (deliver_one-InOrder channel result h)

-- What the client and the worker do with a channel.
pub data Use (C : Type 0) : Type 0 where
  enqueues : C → Use C
  takes : Use C
  delivers : List WorkerCommandProgress → Use C
  drops_receiver : Use C

abbrev pub use_once : {C : Type 0} → Use C → CommandChannel C → CommandChannel C
use_once (enqueues command) channel = (try_enqueue channel command).0
use_once takes channel = (try_next channel).0
use_once (delivers results) channel = (deliver results channel).0
use_once drops_receiver channel = record channel { receiver_alive = false }

unfoldable pub use_all : {C : Type 0} → List (Use C) → CommandChannel C → CommandChannel C
use_all [] channel = channel
use_all (step ∷ steps) channel = use_all steps (use_once step channel)

use_once-InOrder :
    {C : Type 0} (step : Use C) (channel : CommandChannel C)
    → InOrder channel
    → InOrder (use_once step channel)
unfolding try_next
use_once-InOrder (enqueues command) channel h = try_enqueue-InOrder channel command h
use_once-InOrder takes channel h = next_unless-InOrder channel channel.in_flight refl h
use_once-InOrder (delivers results) channel h = deliver-InOrder results channel h
use_once-InOrder drops_receiver channel h = h

all-InOrder :
    {C : Type 0} (steps : List (Use C)) (channel : CommandChannel C)
    → InOrder channel
    → InOrder (use_all steps channel)
unfolding use_all
all-InOrder [] channel h = h
all-InOrder (step ∷ steps) channel h =
    all-InOrder steps (use_once step channel) (use_once-InOrder step channel h)

-- Whatever a client and a worker do with a command channel from its start, in any order and with any
-- results: the requests that it has accepted are those it has answered, the one in flight and those in
-- the queue, each once and in the order in which they were accepted.
pub use_all-InOrder :
    {C : Type 0} (steps : List (Use C)) → InOrder (use_all steps (command_channel {C = C}))
unfolding command_channel numbers_below answered queued
use_all-InOrder {C} steps = all-InOrder steps (command_channel {C = C}) refl
