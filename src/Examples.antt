-- ===== src/Examples.antt =====
-- Each theorem of the library at a concrete input.
use swbt_rs.Base.{
  some, none, inr, Result, ℕ, ◌+◌, ◌-◌, ◌*◌, ◌/◌, ◌≡◌, ◌↔◌, ◌≤◌, ◌<◌, ◌^◌, ◌%◌, ◌⊎◌, refl, not,
  ◌&&◌, ◌||◌, none, List, [], ◌∷◌, ◌++◌, any, ltb, ◌==◌, if◌then◌else◌, length, replicate, ok, err,
  arith,
}
use swbt_rs.Error.{
  Error, ErrorKind, kind, chain, with_related, chain-with_related, chain_of, related_error,
}
use swbt_rs.Model.Button.{ButtonKind, kind_eq}
use swbt_rs.Model.Spec.{ControllerKind}
use swbt_rs.Model.Wire.{supports_button, button_wire_position}
use swbt_rs.Model.Wire.Halves.{on_rail, SamePlace, button_wire_position-SamePlace}
use swbt_rs.Profile.Colors.{rgb, components, try_from, components-rgb, try_from-components}
use swbt_rs.Input.ButtonSet.{ButtonSet, empty, contains, insert, iter, len, from_iter}
use swbt_rs.Input.ButtonSet
use swbt_rs.Input.ButtonSet.Laws
use swbt_rs.Input.ButtonSet.Laws.{contains-insert, any-iter, len-insert, is_empty-from_iter}
use swbt_rs.Input.Imu.{ImuFrame}
use swbt_rs.Input.State.{InputState}
use swbt_rs.Controller.Input.{press_candidate, release_candidate, tap_plan, max_tap_duration}
use swbt_rs.Controller.Input.Laws.{
  Answers, IsPressed, IsReleased, IsTap, IsInvalid, press_candidate-Answers,
  release_candidate-Answers, tap_plan-Answers,
}
use swbt_rs.Protocol.Floats.{F64Ops}
use swbt_rs.Protocol.Error.{subcommand_reply_data_too_large}
use swbt_rs.Protocol.OutputReport.{SubcommandRequest, subcommand, parse_output_report}
use swbt_rs.Protocol.OutputReport.Laws.{Parses, parse-Parses, bytes_of, parse-bytes_of}
use swbt_rs.Protocol.InputReport.{encode_0x30}
use swbt_rs.Protocol.InputReport.Report.{Shows, encode_0x30-Shows}
use swbt_rs.Protocol.Imu.{encode_standard_imu}
use swbt_rs.Protocol.Imu.Standard.{IsAxes, IsFrame, read_axes, read_frame, read-encode_standard}
use swbt_rs.Protocol.Imu.Mode2.{ReadsQuaternion, pack_mode_2-Reads}
use swbt_rs.Protocol.Imu.Quaternion.{pack_mode_2, largest, component}
use swbt_rs.Protocol.Session
use swbt_rs.Protocol.Spi
use swbt_rs.Protocol.Spi.{VirtualSpiFlash}
use swbt_rs.Protocol.Spi.Reads
use swbt_rs.Protocol.Spi.Reads.{read-Answers}
use swbt_rs.Protocol.Subcommand.{PreparedSubcommandReply, prepare_0x21}
use swbt_rs.Protocol.Subcommand.Layout.{IsReply, prepare_0x21-IsReply}
use swbt_rs.Protocol.Facade
use swbt_rs.Protocol.Facade.{PreparedOutputAction, reply, SwitchHidProtocol, prepare_subcommand}
use swbt_rs.Protocol.Facade.Outcome.{Outcome, prepare_subcommand-Outcome}
use swbt_rs.Runtime.Sender
use swbt_rs.Input.State
use swbt_rs.Runtime.Sender.{send_input, send_reply, prepare_reply}
use swbt_rs.Runtime.Sender.Commits.{
  Commits, SameButImu, timer_after, session_after, send_input-Commits, send_reply-Commits,
  prepare_reply-hides_state,
}
use swbt_rs.Runtime.Sessions.{
  Parts, SessionEvent, IsConsistent, tag_current, take_current, begin_direct,
  take_current-tag_current,
}
use swbt_rs.Runtime.Connection
use swbt_rs.Runtime.Scheduler.{ReportScheduler, step, Ticks, step-Ticks}
use swbt_rs.Runtime.Lifecycle.{
  Runs, Edge, new, keeps_alive, connecting, ready, done, next, call, complete_close, closed,
  connect, become_ready, close, opened, closing, call-Edge, Runs-begins_one_cleanup,
}
use swbt_rs.Runtime.Connection.{default, observe, observe_all, reset, is_empty}
use swbt_rs.Runtime.Connection.Laws.{observe-observe_all, is_nil}

abbrev held : InputState
held = record {
  buttons = record { bits = 3 };
  left_stick = record { x = 0x123; y = 0xABC };
  right_stick = record { x = 0xFFF; y = 0 };
  imu_frames = replicate 3 (record { accel = replicate 3 0; gyro = replicate 3 0 });
}

abbrev tapped : List ButtonKind
tapped = ButtonKind.b ∷ ButtonKind.x ∷ []

abbrev frame : ImuFrame
frame = record { accel = 1 ∷ 0xFFFF ∷ 300 ∷ []; gyro = 4 ∷ 5 ∷ 6 ∷ [] }

frame_axes : IsFrame frame
frame_axes = ((omega arith, omega arith, omega arith), (omega arith, omega arith, omega arith))

frame_accel : IsAxes frame.accel
frame_accel = (omega arith, omega arith, omega arith)

-- Floating point numbers, with the operations of the natural numbers in their place.
abbrev integer_ops : F64Ops
integer_ops = record {
  add = λ a b. a + b;
  sub = λ a b. a - b;
  mul = λ a b. a * b;
  div = λ a b. a / b;
  sum = λ l. length l;
  sqrt = λ a. a;
  sin = λ a. a;
  cos = λ a. a;
  abs = λ a. a;
  to_radians = λ a. a;
  eq = λ a b. a == b;
  lt = λ a b. ltb a b;
  of_u64 = λ a. a;
  of_i32 = λ a. a;
  to_i64 = λ a. a;
}

abbrev flash : VirtualSpiFlash
flash = Spi.new ControllerKind.pro none

abbrev hid : SwitchHidProtocol
hid = Facade.new ControllerKind.pro none (0x00 ∷ 0x1B ∷ 0xDC ∷ 0xF9 ∷ 0x9F ∷ 0x7D ∷ [])

abbrev lights_request : SubcommandRequest
lights_request = record { id = 0x30; payload = 0x01 ∷ [] }

abbrev rumble_bytes : List ℕ
rumble_bytes = 0x00 ∷ 0x01 ∷ 0x40 ∷ 0x40 ∷ 0x00 ∷ 0x01 ∷ 0x40 ∷ 0x40 ∷ []

abbrev scheduler : ReportScheduler
scheduler = record { period = 8_000_000; next_deadline = 108_000_000 }

encode_0x30-Shows_example :
    Shows ControllerKind.pro held 7
      (replicate 36 0)
      (encode_0x30 ControllerKind.pro held 7 (replicate 36 0)).bytes
    × ((encode_0x30 ControllerKind.pro held 7 (replicate 36 0)).next_timer ≡ (7 + 1) % 256)
encode_0x30-Shows_example =
    encode_0x30-Shows ControllerKind.pro held 7 (replicate 36 0) refl (omega arith, omega arith)
      (omega arith, omega arith)

prepare_subcommand-Outcome_example :
    Outcome hid ControllerKind.pro lights_request held 1 Session.default
      (prepare_subcommand hid ControllerKind.pro lights_request held 1 Session.default)
prepare_subcommand-Outcome_example =
    prepare_subcommand-Outcome hid ControllerKind.pro lights_request held 1 Session.default

pack_mode_2-Reads_example :
    let block = pack_mode_2 integer_ops (frame ∷ frame ∷ frame ∷ []) (1 ∷ 2 ∷ 3 ∷ 4 ∷ []) 9 in
    (length block ≡ 36)
    × ReadsQuaternion block
        (largest integer_ops (1 ∷ 2 ∷ 3 ∷ 4 ∷ []))
        (component integer_ops (1 ∷ 2 ∷ 3 ∷ 4 ∷ []) 0)
        (component integer_ops (1 ∷ 2 ∷ 3 ∷ 4 ∷ []) 1)
        (component integer_ops (1 ∷ 2 ∷ 3 ∷ 4 ∷ []) 2)
        9
        3
    × (read_axes block 0 ≡ frame.accel)
    × (read_axes block 12 ≡ frame.accel)
    × (read_axes block 24 ≡ frame.accel)
pack_mode_2-Reads_example =
    pack_mode_2-Reads integer_ops frame frame frame (1 ∷ 2 ∷ 3 ∷ 4 ∷ []) 9 frame_accel frame_accel
      frame_accel

parse-Parses_example :
    Parses (0x10 ∷ 5 ∷ rumble_bytes) (parse_output_report (0x10 ∷ 5 ∷ rumble_bytes))
parse-Parses_example = parse-Parses (0x10 ∷ 5 ∷ rumble_bytes)

prepare_0x21-IsReply_example :
    ((length lights_request.payload ≤ 35)
      × (r : PreparedSubcommandReply) × (prepare_0x21 ControllerKind.pro 0x30 0x80
            lights_request.payload held 255
          ≡ ok r)
      × IsReply ControllerKind.pro 0x30 0x80 lights_request.payload held 255 r)
    ⊎ ((35 < length lights_request.payload)
        × (prepare_0x21 ControllerKind.pro 0x30 0x80 lights_request.payload held 255
            ≡ err (subcommand_reply_data_too_large (length lights_request.payload) 35)))
prepare_0x21-IsReply_example =
    prepare_0x21-IsReply ControllerKind.pro 0x30 0x80 lights_request.payload held 255

tap_plan-Answers_example :
    ((1000 ≤ max_tap_duration)
      × Answers
          (IsTap ControllerKind.pro held tapped 1000)
          tapped
          (tap_plan ControllerKind.pro held tapped 1000))
    ⊎ ((max_tap_duration < 1000) × IsInvalid (tap_plan ControllerKind.pro held tapped 1000))
tap_plan-Answers_example = tap_plan-Answers ControllerKind.pro held tapped 1000

read-Answers_example :
    Reads.Answers ControllerKind.pro flash 0x6050 12 (Spi.read ControllerKind.pro flash 0x6050 12)
read-Answers_example = read-Answers ControllerKind.pro flash 0x6050 12

read-encode_standard_example :
    let block = encode_standard_imu (frame ∷ frame ∷ frame ∷ []) in
    (length block ≡ 36)
    × (read_frame block 0 ≡ frame)
    × (read_frame block 1 ≡ frame)
    × (read_frame block 2 ≡ frame)
read-encode_standard_example =
    read-encode_standard frame frame frame frame_axes frame_axes frame_axes

step-Ticks_example : Ticks scheduler 130_000_000 (step scheduler 130_000_000)
step-Ticks_example = step-Ticks scheduler 130_000_000 (omega arith) (omega arith)

session_run : Runs new (connect ∷ become_ready ∷ close ∷ close ∷ []) closing 1
unfolding call new
session_run = next opened closing connect _ 1 (
    next connecting closing become_ready _ 1
      (next ready closing close _ 0 (next closing closing close [] 0 (done closing))))

Runs-begins_one_cleanup_example :
    let cleanups : ℕ = 1 in (cleanups ≤ 1) × ((cleanups ≡ 1) ↔ (complete_close closing ≡ closed))
unfolding keeps_alive
Runs-begins_one_cleanup_example =
    Runs-begins_one_cleanup closing (connect ∷ become_ready ∷ close ∷ close ∷ []) 1 session_run
      (refl, (refl, (refl, (refl, tt))))

call-Edge_example : Edge opened (call close opened).0
call-Edge_example = call-Edge close opened

observe-observe_all_example :
    ((observe (observe_all (reset default) (3 ∷ 0x30 ∷ [])) 0x30).1
      ≡ not (any (λ k. 0x30 == k) (3 ∷ 0x30 ∷ [])))
    × (is_empty (observe_all (reset default) (3 ∷ 0x30 ∷ [])) ≡ is_nil (3 ∷ 0x30 ∷ []))
observe-observe_all_example =
    observe-observe_all default (3 ∷ 0x30 ∷ []) 0x30 (omega arith, (omega arith, tt))

parse-bytes_of_example :
    parse_output_report (bytes_of (subcommand 5 rumble_bytes lights_request) [])
    ≡ ok (subcommand 5 rumble_bytes lights_request)
parse-bytes_of_example = parse-bytes_of 5 rumble_bytes lights_request refl

press_candidate-Answers_example :
    Answers
      (IsPressed ControllerKind.pro held tapped)
      tapped
      (press_candidate ControllerKind.pro held tapped)
press_candidate-Answers_example = press_candidate-Answers ControllerKind.pro held tapped

release_candidate-Answers_example :
    Answers
      (IsReleased ControllerKind.pro held tapped)
      tapped
      (release_candidate ControllerKind.pro held tapped)
release_candidate-Answers_example = release_candidate-Answers ControllerKind.pro held tapped

contains-insert_example :
    contains (insert empty ButtonKind.x).0 ButtonKind.a
    ≡ (kind_eq ButtonKind.a ButtonKind.x || contains empty ButtonKind.a)
contains-insert_example = contains-insert empty ButtonKind.x ButtonKind.a

any-iter_example : any (kind_eq ButtonKind.x) (iter ControllerKind.joycon_l (from_iter tapped)) ≡ (
    contains (from_iter tapped) ButtonKind.x
    && supports_button ControllerKind.joycon_l ButtonKind.x)
any-iter_example = any-iter ControllerKind.joycon_l (from_iter tapped) ButtonKind.x

len-insert_example :
    len (insert held.buttons ButtonKind.x).0
    ≡ len held.buttons + (if contains held.buttons ButtonKind.x then 0 else 1)
len-insert_example = len-insert held.buttons ButtonKind.x

is_empty-from_iter_example : ButtonSet.is_empty (from_iter tapped) ≡ Laws.is_nil tapped
is_empty-from_iter_example = is_empty-from_iter tapped

button_wire_position-SamePlace_example :
    (supports_button ControllerKind.pro ButtonKind.zl
      ≡ (supports_button ControllerKind.joycon_l ButtonKind.zl
          || supports_button ControllerKind.joycon_r ButtonKind.zl)
        && not (on_rail ButtonKind.zl))
    × (supports_button ControllerKind.joycon_l ButtonKind.zl
          && supports_button ControllerKind.joycon_r ButtonKind.zl
        ≡ on_rail ButtonKind.zl)
    × SamePlace
        (button_wire_position ControllerKind.joycon_l ButtonKind.zl)
        (button_wire_position ControllerKind.pro ButtonKind.zl)
    × SamePlace
        (button_wire_position ControllerKind.joycon_r ButtonKind.zl)
        (button_wire_position ControllerKind.pro ButtonKind.zl)
button_wire_position-SamePlace_example = button_wire_position-SamePlace ButtonKind.zl

components-rgb_example : components (rgb 0x82 0x40 0xFF) ≡ 0x82 ∷ 0x40 ∷ 0xFF ∷ []
components-rgb_example = components-rgb 0x82 0x40 0xFF (omega arith) (omega arith) (omega arith)

try_from-components_example :
    ((0x8240FF < 2 ^ 24)
      × (try_from 0x8240FF
          ≡ ok (rgb (0x8240FF / 2 ^ 16 % 256) (0x8240FF / 2 ^ 8 % 256) (0x8240FF % 256))))
    ⊎ ((2 ^ 24 ≤ 0x8240FF) × (try_from 0x8240FF ≡ err (Error.new ErrorKind.invalid_input)))
try_from-components_example = try_from-components 0x8240FF

abbrev failure : Error
failure = Error.new ErrorKind.transport_closed

chain-with_related_example :
    (kind (with_related failure failure) ≡ kind failure)
    × (chain (with_related failure failure) ≡ chain failure ++ chain failure)
    × (chain failure ≡ kind failure ∷ chain_of (related_error failure))
chain-with_related_example = chain-with_related failure failure

-- A transport that counts the accepted reports and takes at most three.
abbrev three_reports : ℕ → List ℕ → ℕ × Result Error ℕ
three_reports n bytes = if ltb n 3 then (n + 1, ok n) else (n, err failure)

send_input-Commits_example :
    Commits Sender.new
      ((Sender.new.committed.next_timer + 1) % 256)
      (SameButImu Sender.new.committed.session)
      (send_input three_reports integer_ops ControllerKind.pro Sender.new 3 held 10)
send_input-Commits_example =
    send_input-Commits three_reports integer_ops ControllerKind.pro Sender.new 3 held 10

abbrev lights_reply : PreparedOutputAction
lights_reply = reply (record { bytes = 0x21 ∷ 0 ∷ []; next_timer = 1 })

send_reply-Commits_example :
    Commits Sender.new
      (timer_after lights_reply)
      (λ next. next ≡ session_after lights_reply Sender.new.committed.session)
      (send_reply three_reports Sender.new 0 lights_reply)
send_reply-Commits_example = send_reply-Commits three_reports Sender.new 0 lights_reply

prepare_reply-hides_state_example :
    prepare_reply hid ControllerKind.pro Sender.new lights_request held
    ≡ prepare_reply hid ControllerKind.pro Sender.new lights_request State.neutral
unfolding Sender.new Sender.default_commit Session.default Session.protocol_ready
    Session.report_mode_supported
prepare_reply-hides_state_example =
    prepare_reply-hides_state hid ControllerKind.pro Sender.new lights_request held State.neutral
      refl

abbrev second_session : Parts
second_session = record {
  sessions = record {
    last_issued = 18_446_744_073_709_551_615;
    current = some 18_446_744_073_709_551_615;
  };
  sender = Sender.new;
  observed = Connection.default;
  input = record { committed = held };
}

take_current-tag_current_example :
    let tag : SessionEvent ℕ = record { session_id = 18_446_744_073_709_551_615; event = 7 } in
    let after = (begin_direct second_session).0.sessions in
    (tag_current second_session.sessions 7 ≡ some tag)
    × (take_current second_session.sessions tag ≡ some 7)
    × IsConsistent after
    × (0 < (begin_direct second_session).1)
    × (take_current after tag ≡ none)
take_current-tag_current_example =
    take_current-tag_current second_session 18_446_744_073_709_551_615 7 (omega arith, inr refl)
      refl
