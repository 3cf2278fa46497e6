-- ===== src/Cpu/Waiting.antt =====
-- The processor of cpu/cpu.cpp and a target with the handshake of memory/memory.cpp: an approximately timed call does
-- not come to its end.
use sc_platform.Prelude.{
  ℕ, ◌≡◌, refl, Bool, true, false, ◌||◌, none, List, [], ◌∷◌, ◌++◌, arith, ◌==◌, done,
}
use sc_platform.Bus.Route.{Phase, end_req, begin_resp, accepted}
use sc_platform.Handshake.{
  Call, acquire, release, send_end_req_bw, send_begin_resp_bw, notify_target_done, notify_peq,
  execute, Target, idle,
}
use sc_platform.Handshake.Stall
use sc_platform.Handshake.Stall.{is_acquire, AllAcquires, idle_stalls}
use sc_platform.Cpu.Approximately
use sc_platform.Cpu.Approximately.{
  Initiator, Action, notify_transport_done, Progress, returned, wait_transport_done,
  begin_transport, init_peq_cb,
}

-- The module, the thread that called `transport`, and the target.
pub record System : Type 0 where
  pub cpu : Initiator
  pub thread : Progress
  pub target : Target

abbrev is_transport_done : Action → Bool
is_transport_done notify_transport_done = true
is_transport_done _ = false

abbrev pub signalled : List Action → Bool
signalled [] = false
signalled (a ∷ rest) = is_transport_done a || signalled rest

-- The target has sent a phase back, of a transaction.
abbrev sends : Call → ℕ → Phase → Bool
sends (send_end_req_bw u) t end_req = t == u
sends (send_begin_resp_bw u) t begin_resp = t == u
sends _ t _ = false

abbrev pub sent : ℕ → Phase → List Call → Bool
sent t ph [] = false
sent t ph (c ∷ cs) = sends c t ph || sent t ph cs

-- The target takes a step of its own; a phase that it has sent back arrives from the processor's queue; the thread
-- goes on once the event it waits for was notified.
pub data Step (s : System) : System → Type 0 where
  target_step : {u : Target} → Stall.Step s.target u → Step s (record s { target = u })
  arrival :
      {c : Initiator} (t : ℕ) (ph : Phase)
      → sent t ph s.target.calls ≡ true
      → init_peq_cb s.cpu t ph ≡ done c
      → Step s (record s { cpu = c })
  wake :
      s.thread ≡ wait_transport_done
      → signalled s.cpu.actions ≡ true
      → Step s (record s { thread = returned })

pub data Reach (s : System) : System → Type 0 where
  here : Reach s s
  next : {t u : System} → Reach s t → Step t u → Reach s u

-- The thread has called `transport`, and the target, which is idle, has accepted the request.
abbrev pub called : Initiator → ℕ → System
called c t =
    let r = begin_transport c t accepted in record { cpu = r.0; thread = r.1; target = idle }

record IsWaiting (s : System) : Type 0 where
  thread_waits : s.thread ≡ wait_transport_done
  silent : signalled s.cpu.actions ≡ false
  reached : Stall.Reach idle s.target

is_acquire-sends : (c : Call) (t : ℕ) (ph : Phase) → is_acquire c ≡ true → sends c t ph ≡ false
is_acquire-sends (acquire u) t ph h = refl
is_acquire-sends (release u) t ph h = absurd (ground arith)
is_acquire-sends (send_end_req_bw u) t ph h = absurd (ground arith)
is_acquire-sends (send_begin_resp_bw u) t ph h = absurd (ground arith)
is_acquire-sends notify_target_done t ph h = absurd (ground arith)
is_acquire-sends (notify_peq u) t ph h = absurd (ground arith)
is_acquire-sends (execute u) t ph h = absurd (ground arith)

AllAcquires-sent : (t : ℕ) (ph : Phase) (cs : List Call) → AllAcquires cs → sent t ph cs ≡ false
AllAcquires-sent t ph [] h = refl
AllAcquires-sent t ph (c ∷ cs) h =
    ground (arith, is_acquire-sends c t ph h.0, AllAcquires-sent t ph cs h.1)

Step-IsWaiting : {s u : System} → Step s u → IsWaiting s → IsWaiting u
Step-IsWaiting (target_step st) v = record {
  thread_waits = v.thread_waits;
  silent = v.silent;
  reached = Stall.next v.reached st;
}
Step-IsWaiting {s} (arrival t ph was_sent e) v =
    let stalled = idle_stalls s.target v.reached in
    absurd (ground (arith, AllAcquires-sent t ph s.target.calls stalled.only_acquires))
Step-IsWaiting (wake w was) v = absurd (ground arith)

Reach-IsWaiting : {s u : System} → IsWaiting s → Reach s u → IsWaiting u
Reach-IsWaiting v here = v
Reach-IsWaiting v (next r st) = Step-IsWaiting st (Reach-IsWaiting v r)

signalled-append :
    (past : List Action) (a : Action)
    → signalled past ≡ false
    → is_transport_done a ≡ false
    → signalled (past ++ a ∷ []) ≡ false
signalled-append [] a h g = ground arith
signalled-append (b ∷ bs) a h g = ground (arith, signalled-append bs a)

called-IsWaiting :
    (c : Initiator) (t : ℕ)
    → c.request_in_progress ≡ none
    → signalled c.actions ≡ false
    → IsWaiting (called c t)
unfolding begin_transport
called-IsWaiting c t free silent = rw free (record {
  thread_waits = refl;
  silent =
      signalled-append (c.actions ++ Approximately.acquire t ∷ []) (Approximately.send_begin_req t)
        (signalled-append c.actions (Approximately.acquire t) silent refl) refl;
  reached = Stall.here;
})

-- An approximately timed call of a processor with no request in progress, which has not notified the end
-- of a transport before, accepted by an idle target with the shared handshake, never returns: whatever
-- phases arrive at the target, in whatever order, and however the processor replies to it, the thread
-- stays at its wait, and the target has sent no phase back, of any transaction.
pub transport_never_returns :
    (c : Initiator) (t : ℕ) (s : System) (u : ℕ) (ph : Phase)
    → c.request_in_progress ≡ none
    → signalled c.actions ≡ false
    → Reach (called c t) s
    → (s.thread ≡ wait_transport_done) × (sent u ph s.target.calls ≡ false)
transport_never_returns c t s u ph free silent r =
    let waits = Reach-IsWaiting (called-IsWaiting c t free silent) r in
    (
      waits.thread_waits,
      AllAcquires-sent u ph s.target.calls (idle_stalls s.target waits.reached).only_acquires,
    )
