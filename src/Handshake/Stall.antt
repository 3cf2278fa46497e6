-- ===== src/Handshake/Stall.antt =====
-- What the handshake of the target modules comes to: a request is never acknowledged.
use sc_platform.Prelude.{
  ℕ, ◌≡◌, refl, Bool, true, false, ◌||◌, none, some, List, [], ◌∷◌, ◌++◌, arith, done, aborted,
}
use sc_platform.Bus.Route.{Phase, begin_req, end_req, begin_resp, end_resp, Sync}
use sc_platform.Handshake.{
  Call, acquire, send_end_req_bw, notify_target_done, Target, idle, targ_peq_cb,
  execute_transaction_process,
}

abbrev is_notify_target_done : Call → Bool
is_notify_target_done notify_target_done = true
is_notify_target_done _ = false

-- The target-done event was notified.
abbrev pub notified : List Call → Bool
notified [] = false
notified (c ∷ cs) = is_notify_target_done c || notified cs

-- What the rest of the platform can make a target do: a phase arrives from its queue, with any
-- transaction, or the target-done event fires, which it does only after it was notified.
pub data Step (s : Target) : Target → Type 0 where
  phase :
      {t : Target} (tr : ℕ) (ph : Phase) (reply : Sync)
      → targ_peq_cb s tr ph reply ≡ done t
      → Step s t
  fire :
      {t : Target} (reply : Sync)
      → notified s.calls ≡ true
      → execute_transaction_process s reply ≡ done t
      → Step s t

pub data Reach (s : Target) : Target → Type 0 where
  here : Reach s s
  next : {t u : Target} → Reach s t → Step t u → Reach s u

abbrev pub is_acquire : Call → Bool
is_acquire (acquire _) = true
is_acquire _ = false

abbrev pub AllAcquires : List Call → Type 0
AllAcquires [] = Unit {0}
AllAcquires (c ∷ cs) = (is_acquire c ≡ true) × AllAcquires cs

-- Nothing is in progress, and every call so far took a reference to a transaction.
pub record IsStalled (s : Target) : Type 0 where
  pub no_response : s.response_in_progress ≡ false
  pub no_transaction : s.transaction_in_progress ≡ none
  pub no_next : s.next_response_pending ≡ none
  pub only_acquires : AllAcquires s.calls

AllAcquires-append : (cs : List Call) (t : ℕ) → AllAcquires cs → AllAcquires (cs ++ acquire t ∷ [])
AllAcquires-append [] t h = (refl, tt)
AllAcquires-append (c ∷ cs) t h = (h.0, AllAcquires-append cs t h.1)

pub AllAcquires-notified : (cs : List Call) → AllAcquires cs → notified cs ≡ false
AllAcquires-notified [] h = refl
AllAcquires-notified (c ∷ cs) h = ground (arith, AllAcquires-notified cs h.1)

targ_peq_cb-IsStalled :
    (s t : Target) (tr : ℕ) (ph : Phase) (reply : Sync)
    → IsStalled s
    → targ_peq_cb s tr ph reply ≡ done t
    → IsStalled t
unfolding targ_peq_cb
targ_peq_cb-IsStalled s t tr begin_req reply v h = ground (arith, AllAcquires-append s.calls tr)
targ_peq_cb-IsStalled s t tr end_resp reply v h = ground arith
targ_peq_cb-IsStalled s t tr end_req reply v h = cc
targ_peq_cb-IsStalled s t tr begin_resp reply v h = cc

Step-IsStalled : {s t : Target} → Step s t → IsStalled s → IsStalled t
Step-IsStalled {s} {t} (phase tr ph reply e) v = targ_peq_cb-IsStalled s t tr ph reply v e
Step-IsStalled {s} {t} (fire reply n e) v =
    absurd (ground (arith, AllAcquires-notified s.calls v.only_acquires))

Reach-IsStalled : {s t : Target} → IsStalled s → Reach s t → IsStalled t
Reach-IsStalled v here = v
Reach-IsStalled v (next r st) = Step-IsStalled st (Reach-IsStalled v r)

-- Whatever phases arrive, in whatever order, and however the initiator replies, a target that starts
-- idle never has a transaction in progress and never makes a call but to take a reference: no request
-- is acknowledged, executed or answered.
pub idle_stalls : (t : Target) → Reach idle t → IsStalled t
unfolding idle
idle_stalls t r =
    Reach-IsStalled
      (record { no_response = refl; no_transaction = refl; no_next = refl; only_acquires = tt }) r

-- Were a transaction in progress, the next request would abort.
pub begin_req_aborts :
    (s : Target) (old new : ℕ) (reply : Sync)
    → s.transaction_in_progress ≡ some old
    → targ_peq_cb s new begin_req reply ≡ aborted
unfolding targ_peq_cb
begin_req_aborts s old new reply busy = ground arith

-- When the initiator ends the response of a target that holds back a request and no response, the
-- request becomes the transaction in progress, is acknowledged and has its execution scheduled.
pub end_resp_accepts_next :
    (s : Target) (tr waiting : ℕ) (reply : Sync)
    → s.response_in_progress ≡ true
    → s.next_response_pending ≡ none
    → s.end_req_pending ≡ some waiting
    → targ_peq_cb s tr end_resp reply
      ≡ done (record s {
        response_in_progress = false;
        transaction_in_progress = some waiting;
        end_req_pending = none;
        calls = (s.calls ++ send_end_req_bw waiting ∷ []) ++ notify_target_done ∷ [];
      })
unfolding targ_peq_cb
end_resp_accepts_next s tr waiting reply response none_next held = ground arith
