-- ===== src/Memory/Refinement.antt =====
-- Blocking transactions on the memory of memory/memory.cpp, one after the other, against a memory that is a
-- function from addresses to bytes and never grows.
use sc_platform.Prelude.{
  ℕ, ◌+◌, ◌≤◌, ◌<◌, ◌≡◌, refl, ap, ◌∙◌, inl, inr, Bool, some, List, [], ◌∷◌, arith, if◌then◌else◌,
  Bool-cases, length, slice, overwrite, length-slice, All, Outcome, done, ◌>>=◌, defined,
}
use sc_platform.Common.{Payload, Command, read, write, lt}
use sc_platform.Memory.{Memory, Env, Served, first_error, b_transport}
use sc_platform.Memory.Safety.{
  IsValid, IsBuffered, end_of, grown, grown-IsValid, written-IsValid, written, filled,
  accepted-inside,
}
use sc_platform.Memory.Contents.{
  first_error-same, IsServable, after_write, after_read, b_transport-write, b_transport-read,
  first_error-same,
}
use sc_platform.Memory.Image.{image, put, fetch, image-grown, byte_or-overwrite, slice-fetch}

-- A transaction that reads or writes, with the bytes of its buffer.
pub record Transfer : Type 0 where
  pub trans : Payload
  pub ptr : List ℕ
  pub is_write : Bool

abbrev pub command_of : Bool → Command
command_of w = if w then write else read

-- The transaction passes the checks of the module, does not wrap around, and has the command that it says.
abbrev pub IsAccepted : Memory → Transfer → Type 0
IsAccepted m a = IsServable m a.trans a.ptr × (a.trans.command ≡ command_of a.is_write)

-- What the function becomes, and what the buffer holds afterwards.
unfoldable pub abstract_transfer : Transfer → (ℕ → ℕ) → (ℕ → ℕ) × List ℕ
unfolding put fetch
abstract_transfer a f =
    if a.is_write
    then (put a.trans.address (slice 0 a.trans.data_length a.ptr) f, a.ptr)
    else (f, overwrite 0 (fetch a.trans.address a.trans.data_length f) a.ptr)

unfoldable pub abstract_run : List Transfer → (ℕ → ℕ) → (ℕ → ℕ) × List (List ℕ)
unfolding abstract_transfer
abstract_run [] f = (f, [])
abstract_run (a ∷ later) f =
    let r = abstract_transfer a f in let rest = abstract_run later r.0 in (rest.0, r.1 ∷ rest.1)

-- The module's transactions, each without an annotated delay: the memory, and the buffers.
unfoldable pub transport_run : Env → List Transfer → Memory → Outcome (Memory × List (List ℕ))
unfolding b_transport
transport_run env [] m = done (m, [])
transport_run env (a ∷ later) m = do
  s ← b_transport env m a.trans 0
  ptr ← defined s.trans.bytes
  rest ← transport_run env later s.memory
  done (rest.0, ptr ∷ rest.1)

-- The checks do not change from a memory to the next.
abbrev ChecksSame : Memory → Memory → Type 0
ChecksSame m m' =
    (r : Payload) → first_error m' r r.data_length lt ≡ first_error m r r.data_length lt

first_error-grown : (m : Memory) (end : ℕ) → ChecksSame m (grown m end)
unfolding first_error
first_error-grown m end r = ground arith

All-IsAccepted :
    (m m' : Memory) (transfers : List Transfer)
    → ChecksSame m m'
    → All (IsAccepted m) transfers
    → All (IsAccepted m') transfers
All-IsAccepted m m' [] same ok = tt
All-IsAccepted m m' (a ∷ later) same ok = (
  (record { buffered = ok.0.0.buffered; fine = same a.trans ∙ ok.0.0.fine }, ok.0.1),
  All-IsAccepted m m' later same ok.1,
)

image-grown_path : (m : Memory) (end : ℕ) → IsValid m → image (grown m end) ≡ image m
image-grown_path m end v = λ k i. image-grown m end i v.within k

put-refines :
    (m : Memory) (trans : Payload) (ptr : List ℕ)
    → IsValid m
    → IsBuffered trans ptr
    → end_of trans < m.target_size
    → image (written (grown m (end_of trans)) trans ptr)
      ≡ put trans.address (slice 0 trans.data_length ptr) (image m)
put-refines m trans ptr v b inside =
    let ys = slice 0 trans.data_length ptr in
    let m' = grown m (end_of trans) in
    let room = (grown-IsValid m (end_of trans) v inside).1 in
    let fits : trans.address + length ys ≤ length m'.mem_vec =
      omega (arith, room, length-slice 0 trans.data_length ptr (omega (arith, b.long))) in
    (λ k i. byte_or-overwrite trans.address ys m'.mem_vec i fits k)
    ∙ ap (put trans.address ys) (image-grown_path m (end_of trans) v)

fetch-refines :
    (m : Memory) (trans : Payload) (ptr : List ℕ)
    → IsValid m
    → end_of trans < m.target_size
    → filled (grown m (end_of trans)) trans ptr
      ≡ overwrite 0 (fetch trans.address trans.data_length (image m)) ptr
fetch-refines m trans ptr v inside =
    let m' = grown m (end_of trans) in
    let room = (grown-IsValid m (end_of trans) v inside).1 in
    ap (λ ys. overwrite 0 ys ptr)
      (slice-fetch trans.address trans.data_length m'.mem_vec room
        ∙ ap (fetch trans.address trans.data_length) (image-grown_path m (end_of trans) v))

transfer-refines :
    (env : Env) (m : Memory) (a : Transfer)
    → IsValid m
    → IsAccepted m a
    → (s : Served) × (b_transport env m a.trans 0 ≡ done s)
      × (s.trans.bytes ≡ some (abstract_transfer a (image m)).1)
      × (image s.memory ≡ (abstract_transfer a (image m)).0)
      × IsValid s.memory
      × ChecksSame m s.memory
unfolding abstract_transfer
transfer-refines env m a v ok =
    let b = ok.0.buffered in
    let inside = accepted-inside m a.trans lt b.no_wrap ok.0.fine in
    let (v', room) = grown-IsValid m (end_of a.trans) v inside in
    elim (Bool-cases a.is_write) [
      | inl w ↦ (
        after_write env m a.trans a.ptr 0,
        b_transport-write env m a.trans a.ptr 0 v ok.0 (ok.1 ∙ ap command_of w),
        b.holds ∙ rw w refl,
        put-refines m a.trans a.ptr v b inside ∙ rw w refl,
        written-IsValid (grown m (end_of a.trans)) a.trans a.ptr v',
        λ r. first_error-same m a.trans r a.ptr (end_of a.trans),
      )
      | inr r ↦ (
        after_read env m a.trans a.ptr 0,
        b_transport-read env m a.trans a.ptr 0 v ok.0 (ok.1 ∙ ap command_of r),
        ap some (fetch-refines m a.trans a.ptr v inside) ∙ rw r refl,
        image-grown_path m (end_of a.trans) v ∙ rw r refl,
        v',
        first_error-grown m (end_of a.trans),
      )
    ]

-- A memory is valid if its two vectors have one length, which is not 0 and at most the configured size,
-- and 1024 more than that size is at most 2^32. A run of transactions that each are a
-- write or a read, pass the checks of a valid memory, have an address and a length with a sum below 2^64
-- and a buffer that holds the length completes; its buffers hold what the same transfers to a function from addresses to bytes give,
-- which starts as what the memory holds, with 0xEA where nothing is allocated, and the memory holds what the
-- function becomes.
pub transport_run-refines :
    (env : Env) (transfers : List Transfer) (m : Memory)
    → IsValid m
    → All (IsAccepted m) transfers
    → (m' : Memory) × (transport_run env transfers m
        ≡ done (m', (abstract_run transfers (image m)).1))
      × (image m' ≡ (abstract_run transfers (image m)).0)
unfolding transport_run abstract_run
transport_run-refines env [] m v ok = (m, refl, refl)
transport_run-refines env (a ∷ later) m v ok =
    let (s, e, bytes, told, v', same) = transfer-refines env m a v ok.0 in
    let ok' = All-IsAccepted m s.memory later same ok.1 in
    let (m', e', told') = transport_run-refines env later s.memory v' ok' in
    (
      m',
      rw (e, bytes, e')
          (ap (λ f. done (m', (abstract_transfer a (image m)).1 ∷ (abstract_run later f).1)) told),
      told' ∙ ap (λ f. (abstract_run later f).0) told,
    )
