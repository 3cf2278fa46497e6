-- ===== src/Handshake.antt =====
-- The approximately timed handshake of the target modules: `targ_peq_cb`, `send_end_req`,
-- `send_response` and `execute_transaction_process`, which memory/memory.cpp, timer/timer.cpp,
-- gpio/gpio.cpp and interrupt/pic.cpp repeat with the same guards. A transaction is named by a number,
-- as its address; the calls that leave the module are recorded in the order they are made. The times
-- annotated on them are left out.
pub mod Stall
pub mod Device
use sc_platform.Prelude.{
  ℕ, Bool, true, false, Option, none, some, List, [], ◌∷◌, ◌++◌, if◌then◌else◌, Outcome, done,
  aborted, undefined, ◌>>=◌, ◌>>◌, require,
}
use sc_platform.Bus.Route.{
  Phase, begin_req, end_req, begin_resp, end_resp, Sync, accepted, updated, completed,
}

pub data Call : Type 0 where
  acquire release : ℕ → Call
  -- `nb_transport_bw` with the phase END_REQ or BEGIN_RESP.
  send_end_req_bw send_begin_resp_bw : ℕ → Call
  notify_target_done : Call
  notify_peq : ℕ → Call
  execute : ℕ → Call

pub record Target : Type 0 where
  pub response_in_progress : Bool
  pub transaction_in_progress : Option ℕ
  pub next_response_pending : Option ℕ
  pub end_req_pending : Option ℕ
  pub calls : List Call

unfoldable pub idle : Target
idle = record {
  response_in_progress = false;
  transaction_in_progress = none;
  next_response_pending = none;
  end_req_pending = none;
  calls = [];
}

abbrev pub is_null : Option ℕ → Bool
is_null none = true
is_null (some _) = false

abbrev pub record_call : Target → Call → Target
record_call s c = record s { calls = s.calls ++ c ∷ [] }

-- `assert( m_transaction_in_progress == nullptr )`.
unfoldable pub send_end_req : Target → ℕ → Outcome Target
send_end_req s t = do
  let s' = record_call (record_call s (send_end_req_bw t)) notify_target_done
  require (is_null s.transaction_in_progress)
  done (record s' { transaction_in_progress = some t })

-- What the initiator's status does to the target.
replied : Target → ℕ → Sync → Target
replied s t accepted = s
replied s t updated = record_call s (notify_peq t)
replied s t completed = record s { transaction_in_progress = none; response_in_progress = false }

-- `reply` is what the initiator's `nb_transport_bw` returns.
unfoldable pub send_response : Target → ℕ → Sync → Target
unfolding replied
send_response s t reply =
    let s' = record_call (record s { response_in_progress = true }) (send_begin_resp_bw t) in
    record_call (replied s' t reply) (release t)

begin_request : Target → ℕ → Outcome Target
unfolding send_end_req
begin_request s t =
    let s' = record_call s (acquire t) in
    if is_null s.transaction_in_progress
    then done (record s' { end_req_pending = some t })
    else send_end_req s' t

answer_next : Target → Option ℕ → Sync → Target
unfolding send_response
answer_next s none reply = s
answer_next s (some t) reply = record (send_response s t reply) { next_response_pending = none }

accept_next : Target → Option ℕ → Outcome Target
unfolding send_end_req
accept_next s none = done s
accept_next s (some t) = do s' ← send_end_req s t; done (record s' { end_req_pending = none })

end_response : Target → Sync → Outcome Target
unfolding answer_next accept_next
end_response s reply = do
  require s.response_in_progress
  let s' = record s { transaction_in_progress = none; response_in_progress = false }
  let s'' = answer_next s' s'.next_response_pending reply
  accept_next s'' s''.end_req_pending

unfoldable pub targ_peq_cb : Target → ℕ → Phase → Sync → Outcome Target
unfolding begin_request end_response
targ_peq_cb s t begin_req reply = begin_request s t
targ_peq_cb s t end_resp reply = end_response s reply
targ_peq_cb s t end_req reply = aborted
targ_peq_cb s t begin_resp reply = aborted

queue_response : Target → ℕ → Outcome Target
queue_response s t = do
  require (is_null s.next_response_pending)
  done (record s { next_response_pending = some t })

process : Target → Option ℕ → Sync → Outcome Target
unfolding send_response queue_response
process s none reply = undefined
process s (some t) reply =
    let s' = record_call s (execute t) in
    if s.response_in_progress then queue_response s' t else done (send_response s' t reply)

-- Runs when the target-done event fires. With no transaction it would read through a null pointer.
unfoldable pub execute_transaction_process : Target → Sync → Outcome Target
unfolding process
execute_transaction_process s reply = process s s.transaction_in_progress reply
