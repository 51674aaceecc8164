-- ===== src/Runtime/Command.antt =====
-- src/runtime/command.rs: the queue of commands between a client and the worker, and its answers.
pub mod Order
use swbt_rs.Base.{
  ℕ, zero, suc, Bool, true, false, Option, none, some, List, [], ◌∷◌, ◌++◌, if◌then◌else◌, Result,
  ok, err,
}
use swbt_rs.Runtime.Worker.Types.{
  CommandResult, WorkerCommandProgress, complete, pending, StepProgress,
}

pub data CommandEnqueueError : Type 0 where
  invariant_violation disconnected : CommandEnqueueError

pub data CommandDeliveryError : Type 0 where
  missing_response : CommandDeliveryError

-- The two ends of `sync_channel(1)` and the response channels. A response channel is the number of
-- its request, in the order of the requests that are accepted; `answers` is what has been sent into
-- the response channels so far.
pub record CommandChannel (C : Type 0) : Type 0 where
  pub queue : List (C × ℕ)
  pub receiver_alive : Bool
  pub in_flight : Option ℕ
  pub issued : ℕ
  pub answers : List (ℕ × CommandResult)

unfoldable pub command_channel : {C : Type 0} → CommandChannel C
command_channel = record {
  queue = [];
  receiver_alive = true;
  in_flight = none;
  issued = 0;
  answers = [];
}

module _ {C : Type 0} where
  -- `try_send` on a queue of capacity one.
  abbrev sent_to :
      CommandChannel C → C → List (C × ℕ) → CommandChannel C × Result CommandEnqueueError ℕ
  sent_to channel command [] = (
    record channel { queue = (command, channel.issued) ∷ []; issued = suc channel.issued },
    ok channel.issued,
  )
  sent_to channel command (_ ∷ _) = (channel, err invariant_violation)

  unfoldable pub try_enqueue :
      CommandChannel C → C → CommandChannel C × Result CommandEnqueueError ℕ
  try_enqueue channel command =
      if channel.receiver_alive
      then sent_to channel command channel.queue
      else (channel, err disconnected)

  abbrev received : CommandChannel C → List (C × ℕ) → CommandChannel C × Option C
  received channel [] = (channel, none)
  received channel ((command, completion) ∷ queue) =
      (record channel { queue = queue; in_flight = some completion }, some command)

  abbrev next_unless : CommandChannel C → Option ℕ → CommandChannel C × Option C
  next_unless channel (some _) = (channel, none)
  next_unless channel none = received channel channel.queue

  unfoldable pub try_next : CommandChannel C → CommandChannel C × Option C
  try_next channel = next_unless channel channel.in_flight

  abbrev respond :
      CommandChannel C
      → CommandResult
      → Option ℕ
      → CommandChannel C × Result CommandDeliveryError (Unit {0})
  respond channel result none = (channel, err missing_response)
  respond channel result (some completion) = (
    record channel { in_flight = none; answers = channel.answers ++ ((completion, result) ∷ []) },
    ok tt,
  )

  abbrev still_waiting :
      CommandChannel C → Option ℕ → CommandChannel C × Result CommandDeliveryError (Unit {0})
  still_waiting channel none = (channel, err missing_response)
  still_waiting channel (some _) = (channel, ok tt)

  abbrev deliver_one :
      CommandChannel C
      → WorkerCommandProgress
      → CommandChannel C × Result CommandDeliveryError (Unit {0})
  deliver_one channel pending = still_waiting channel channel.in_flight
  deliver_one channel (complete result) = respond channel result channel.in_flight

  -- The first error ends the delivery.
  abbrev deliver_rest :
      (CommandChannel C → CommandChannel C × Result CommandDeliveryError (Unit {0}))
      → CommandChannel C × Result CommandDeliveryError (Unit {0})
      → CommandChannel C × Result CommandDeliveryError (Unit {0})
  deliver_rest rest (channel, err e) = (channel, err e)
  deliver_rest rest (channel, ok _) = rest channel

  unfoldable pub deliver :
      List WorkerCommandProgress
      → CommandChannel C
      → CommandChannel C × Result CommandDeliveryError (Unit {0})
  deliver [] channel = (channel, ok tt)
  deliver (result ∷ results) channel = deliver_rest (deliver results) (deliver_one channel result)

  unfoldable pub deliver_completion :
      CommandChannel C → CommandResult → CommandChannel C × Result CommandDeliveryError (Unit {0})
  unfolding deliver
  deliver_completion channel result = deliver (complete result ∷ []) channel

  abbrev delivered :
      CommandChannel C
      → Option CommandResult
      → CommandChannel C × Result CommandDeliveryError (Unit {0})
  delivered channel none = (channel, ok tt)
  delivered channel (some result) = deliver_completion channel result

  -- The channel, the progress without its answer, and the result.
  unfoldable pub deliver_progress :
      CommandChannel C
      → StepProgress
      → CommandChannel C × StepProgress × Result CommandDeliveryError (Unit {0})
  unfolding deliver_completion
  deliver_progress channel progress =
      let (channel', result) = delivered channel progress.command_result in
      (channel', record progress { command_result = none }, result)
