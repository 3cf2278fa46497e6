-- ===== src/Cpu/Approximately.antt =====
-- The approximately timed half of `Cpu_module::transport`, `init_peq_cb` and `check_transaction` of cpu/cpu.cpp. A
-- transaction is named by a number, as its address; what the module does to the outside is recorded in order. The
-- times are left out: a wait for a delay only puts the rest off.
use sc_platform.Prelude.{
  ℕ, Bool, true, false, Option, none, some, List, [], ◌∷◌, ◌++◌, ◌==◌, if◌then◌else◌, Outcome, done,
  aborted,
}
use sc_platform.Bus.Route.{
  Phase, begin_req, end_req, begin_resp, end_resp, Sync, accepted, updated, completed,
}
use sc_platform.Handshake.{is_null}

pub data Action : Type 0 where
  acquire release : ℕ → Action
  -- `nb_transport_fw` with the phase BEGIN_REQ or END_RESP.
  send_begin_req send_end_resp : ℕ → Action
  notify_end_request notify_transport_done : Action
  notify_peq : ℕ → Action

pub record Initiator : Type 0 where
  pub request_in_progress : Option ℕ
  pub actions : List Action

-- What the thread in `transport` does next: it has returned, or waits for one of the two events.
pub data Progress : Type 0 where
  returned wait_end_request wait_transport_done : Progress

abbrev pub record_action : Initiator → Action → Initiator
record_action s a = record s { actions = s.actions ++ a ∷ [] }

unfoldable pub check_transaction : Initiator → Initiator
check_transaction s = record_action s notify_transport_done

-- `status` is what `nb_transport_fw` returned.
unfoldable pub answered_with : Initiator → ℕ → Sync → Initiator × Progress
unfolding check_transaction
answered_with s t updated = (record_action s (notify_peq t), wait_transport_done)
answered_with s t completed = (
  record_action (check_transaction (record s { request_in_progress = none })) (release t),
  returned,
)
answered_with s t accepted = (s, wait_transport_done)

-- From the end of the first wait on.
unfoldable pub send_request : Initiator → ℕ → Sync → Initiator × Progress
unfolding answered_with
send_request s t status =
    answered_with (record_action (record s { request_in_progress = some t }) (send_begin_req t)) t
      status

unfoldable pub begin_transport : Initiator → ℕ → Sync → Initiator × Progress
unfolding send_request
begin_transport s t status =
    let s' = record_action s (acquire t) in
    if is_null s.request_in_progress then send_request s' t status else (s', wait_end_request)

abbrev is_request : Option ℕ → ℕ → Bool
is_request none t = false
is_request (some r) t = r == t

-- Whether a phase ends the request phase.
unfoldable pub ends_request : Option ℕ → ℕ → Phase → Bool
ends_request r t end_req = true
ends_request r t begin_resp = is_request r t
ends_request r t _ = false

is_illegal : Phase → Bool
is_illegal begin_req = true
is_illegal end_resp = true
is_illegal _ = false

respond : Initiator → ℕ → Phase → Initiator
unfolding check_transaction
respond s t begin_resp =
    record_action (record_action (check_transaction s) (send_end_resp t)) (release t)
respond s t _ = s

unfoldable pub init_peq_cb : Initiator → ℕ → Phase → Outcome Initiator
unfolding ends_request is_illegal respond
init_peq_cb s t phase =
    if ends_request s.request_in_progress t phase
    then done (
        respond (record_action (record s { request_in_progress = none }) notify_end_request) t
          phase)
    else if is_illegal phase
    then aborted
    else done (respond s t phase)
