-- ===== src/Tests/Routes.antt =====
-- The interfaces of bus/bus.cpp at a bus of a ROM and a RAM.
use sc_platform.Prelude.{
  ℕ, ◌≡◌, refl, ◌≢◌, inl, inr, false, none, some, [], ◌∷◌, arith, Among, done, undefined,
}
use sc_platform.Common.{Payload, read, incomplete_response}
use sc_platform.Bus.Map.{TargetInfo}
use sc_platform.Bus.Decode.{Covers}
use sc_platform.Bus.Build.{build_port_map}
use sc_platform.Bus.Route.{
  Bus, Phase, begin_req, end_resp, accepted, completed, Answer, passed, b_transport,
  nb_transport_fw,
}
use sc_platform.Bus.Route.Laws.{
  IsReady, b_transport_delivers, b_transport_safe, nb_transport_fw_misroutes,
}
use sc_platform.Tests.Buses.{rom, ram, two, two-Below, two_checked, mapped, probes}

abbrev pub bus : Bus
bus = record { addr_map = two; targets = 2; error_at_target = false }

abbrev request : ℕ → Payload
request address = record {
  command = read;
  address = address;
  bytes = some (0 ∷ 0 ∷ []);
  data_length = 2;
  streaming_width = 2;
  byte_enabled = false;
  response = incomplete_response;
}

pub bus-IsReady : IsReady bus
bus-IsReady = record { keyed = two-Below; checked = two_checked; few = omega arith }

outside : (e : ℕ × TargetInfo) → Among e two → ¬ Covers 9000 e
outside e (inl h) c = ground arith
outside e (inr (inl h)) c = ground arith
outside e (inr (inr h)) c = absurd h

abbrev accepting : ℕ → Payload → Phase → Answer
accepting port t ph = record { status = accepted; trans = t; phase = ph }

abbrev completing : ℕ → Payload → Phase → Answer
completing port t ph = record { status = completed; trans = t; phase = ph }

b_transport_delivers_example : b_transport bus (request 4100) ≡ done (passed 1 (request 4))
b_transport_delivers_example =
    b_transport_delivers bus ram (request 4100) bus-IsReady (inl refl) (omega arith, omega arith)
      (λ e. omega arith) (omega arith)

b_transport_safe_example :
    b_transport
      (record { addr_map = build_port_map mapped probes; targets = 2; error_at_target = false })
      (request 4100)
    ≢ undefined
b_transport_safe_example =
    b_transport_safe mapped probes false (request 4100) (refl, (refl, tt)) (omega arith)

nb_transport_fw_misroutes_example :
    (nb_transport_fw bus accepting 7 (request 4100) begin_req none
      ≡ done (accepting 1 (request 4) begin_req, some 7))
    × (nb_transport_fw bus accepting 7 (request 4) end_resp (some 7)
        ≡ done (accepting 0 (request 4) end_resp, some 7))
nb_transport_fw_misroutes_example =
    nb_transport_fw_misroutes bus ram rom (request 4100) 7 accepting bus-IsReady (inl refl)
      (inr (inl refl)) (omega arith, omega arith) (omega arith, omega arith) (λ e. omega arith)
      (λ e. omega arith) (omega arith) (omega arith) (λ port t ph. refl)
