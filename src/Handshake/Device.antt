-- ===== src/Handshake/Device.antt =====
-- A target module behind the handshake: the device that `execute_transaction` works on, and the transactions,
-- by their number. The modules of gpio/gpio.cpp, interrupt/pic.cpp, timer/timer.cpp and uart/uart.cpp are such.
use mathlib.Core.Path.{subst}
use sc_platform.Prelude.{
  ℕ, ◌≡◌, refl, sym, true, Option, none, some, List, [], ◌∷◌, ◌++◌, arith, ◌==◌, if◌then◌else◌,
  Outcome, done, undefined, ◌>>=◌, >>=-eq-done,
}
use sc_platform.Common.{Payload}
use sc_platform.Bus.Route.{Phase, Sync, accepted}
use sc_platform.Handshake
use sc_platform.Handshake.{Target, idle}
use sc_platform.Handshake.Stall
use sc_platform.Handshake.Stall.{notified, idle_stalls, IsStalled, AllAcquires-notified}

pub record Module (Device : Type 0) : Type 0 where
  pub target : Target
  pub device : Device
  pub payloads : ℕ → Payload

-- An entry of `m_targ_peq`: the transaction, its phase, and when it is due.
abbrev pub Entry : Type 0
Entry = ℕ × Phase × ℕ

-- `nb_transport_fw`: the queue grows, and the answer is always the same.
pub enqueue : List Entry → ℕ → Phase → ℕ → List Entry × Sync
enqueue queue t phase delay = (queue ++ (t, phase, delay) ∷ [], accepted)

abbrev store : (ℕ → Payload) → ℕ → Payload → ℕ → Payload
store payloads t trans u = if u == t then trans else payloads u

module _ {Device : Type 0}
    (execute_transaction : Device → Payload → Outcome (Device × Payload)) where
  unfoldable pub targ_peq_cb : Module Device → ℕ → Phase → Sync → Outcome (Module Device)
  targ_peq_cb m t phase reply = do
    s ← Handshake.targ_peq_cb m.target t phase reply
    done (record m { target = s })

  -- What the process does to the device and to the transaction in progress, before it answers.
  execute : Module Device → Option ℕ → Outcome (Module Device)
  execute m none = undefined
  execute m (some t) = do
    r ← execute_transaction m.device (m.payloads t)
    done (record m { device = r.0; payloads = store m.payloads t r.1 })

  pub execute_transaction_process : Module Device → Sync → Outcome (Module Device)
  unfolding execute
  execute_transaction_process m reply = do
    m' ← execute m m.target.transaction_in_progress
    s ← Handshake.execute_transaction_process m.target reply
    done (record m' { target = s })

  -- What the rest of the platform can make a module do.
  pub data Step (m : Module Device) : Module Device → Type 0 where
    phase :
        {n : Module Device} (t : ℕ) (ph : Phase) (reply : Sync)
        → targ_peq_cb m t ph reply ≡ done n
        → Step m n
    fire :
        {n : Module Device} (reply : Sync)
        → notified m.target.calls ≡ true
        → execute_transaction_process m reply ≡ done n
        → Step m n

  pub data Reach (m : Module Device) : Module Device → Type 0 where
    here : Reach m m
    next : {n o : Module Device} → Reach m n → Step n o → Reach m o

  -- The module's target takes the steps of the handshake, and while it is stalled the rest stays.
  record IsUntouched (m n : Module Device) : Type 0 where
    reached : Handshake.Stall.Reach idle n.target
    same_device : n.device ≡ m.device
    same_payloads : n.payloads ≡ m.payloads

  Step-IsUntouched : {m n o : Module Device} → IsUntouched m n → Step n o → IsUntouched m o
  unfolding targ_peq_cb execute_transaction_process
  Step-IsUntouched {m} {n} {o} u (phase t ph reply e) =
      let (s, moved, made) =
        >>=-eq-done (Handshake.targ_peq_cb n.target t ph reply)
          (λ s. done (record n { target = s })) e in
      let same : record n { target = s } ≡ o = cc in
      subst (IsUntouched m) same (record {
        reached = Handshake.Stall.next u.reached (Handshake.Stall.phase t ph reply moved);
        same_device = u.same_device;
        same_payloads = u.same_payloads;
      })
  Step-IsUntouched {m} {n} {o} u (fire reply told e) =
      let stalled = idle_stalls n.target u.reached in
      let silent = AllAcquires-notified n.target.calls stalled.only_acquires in
      absurd (ground arith)

  Reach-IsUntouched : {m n o : Module Device} → IsUntouched m n → Reach n o → IsUntouched m o
  Reach-IsUntouched u here = u
  Reach-IsUntouched u (next r st) = Step-IsUntouched (Reach-IsUntouched u r) st

  -- Whatever a module does with a transaction, and whatever phases arrive in whatever order, a module that
  -- starts idle never executes one: its device and all transactions stay as they were.
  pub Reach-untouched :
      (m n : Module Device)
      → m.target ≡ idle
      → Reach m n
      → (n.device ≡ m.device) × (n.payloads ≡ m.payloads)
  Reach-untouched m n start r =
      let u0 : IsUntouched m m = record {
        reached = subst (Handshake.Stall.Reach idle) (sym start) Handshake.Stall.here;
        same_device = refl;
        same_payloads = refl;
      } in
      let u = Reach-IsUntouched u0 r in (u.same_device, u.same_payloads)
