-- ===== src/Tests/Stubs.antt =====
-- The stub of top/stub.cpp with the settings of a small memory, called and behind its handshake.
use sc_platform.Prelude.{◌≡◌, refl, some, [], ◌∷◌, Outcome, done, ◌>>=◌}
use sc_platform.Common.{Payload, read, ok_response}
use sc_platform.Bus.Route.{begin_req, accepted}
use sc_platform.Memory
use sc_platform.Memory.{Served}
use sc_platform.Handshake
use sc_platform.Handshake.{acquire, idle}
use sc_platform.Handshake.Device.{Module, targ_peq_cb, Reach, here, next, phase, Reach-untouched}
use sc_platform.Stub.{Stub, b_transport, execute_transaction}
use sc_platform.Stub.Timing.{stub_of, without_bytes, b_transport-memory}
use sc_platform.Tests.Memories.{env, full, payload}

abbrev request : Payload
request = payload read 0 (0 ∷ 0 ∷ [])

abbrev served : Served
served = record {
  memory = full;
  trans = record request { bytes = some (1 ∷ 2 ∷ []); response = ok_response };
  delay = 30;
  length = 2;
}

full-Served : Memory.b_transport env full request 0 ≡ done served
unfolding Memory.b_transport
full-Served = refl

b_transport-memory_example :
    b_transport env (stub_of full) request 0 ≡ done (without_bytes request served)
b_transport-memory_example = b_transport-memory env full request 0 served full-Served

abbrev run : Stub → Payload → Outcome (Stub × Payload)
run s trans = do a ← execute_transaction env s trans; done (s, a.trans)

abbrev stub : Module Stub
stub = record { target = idle; device = stub_of full; payloads = λ t. request }

-- After the request of transaction 3.
abbrev asked : Module Stub
asked = record stub { target = record idle { end_req_pending = some 3; calls = acquire 3 ∷ [] } }

stub_asked : Reach run stub asked
unfolding targ_peq_cb idle Handshake.targ_peq_cb
stub_asked = next here (phase 3 begin_req accepted refl)

Reach-untouched_example : (asked.device ≡ stub.device) × (asked.payloads ≡ stub.payloads)
Reach-untouched_example = Reach-untouched run stub asked refl stub_asked
