-- ===== src/Tests/Targets.antt =====
-- The handshake of the target modules at a first request.
use sc_platform.Prelude.{refl, false, none, some, [], ◌∷◌}
use sc_platform.Bus.Route.{begin_req, accepted}
use sc_platform.Handshake.{Target, acquire, idle, targ_peq_cb}
use sc_platform.Handshake.Stall.{Reach, here, next, phase, IsStalled, idle_stalls}

-- A target that has received the request of transaction 3.
abbrev requested : Target
requested = record {
  response_in_progress = false;
  transaction_in_progress = none;
  next_response_pending = none;
  end_req_pending = some 3;
  calls = acquire 3 ∷ [];
}

idle-requested : Reach idle requested
unfolding targ_peq_cb idle
idle-requested = next here (phase 3 begin_req accepted refl)

idle_stalls_example : IsStalled requested
idle_stalls_example = idle_stalls requested idle-requested
