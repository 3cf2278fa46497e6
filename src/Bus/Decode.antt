-- ===== src/Bus/Decode.antt =====
-- `Bus_module::decode_address` and `Bus_module::mask_if_fits` of bus/bus.cpp, on a checked map.
use sc_platform.Prelude.{
  ℕ, ◌+◌, ◌-◌, ◌<◌, ◌≤◌, ◌^◌, ◌≡◌, ◌≢◌, inl, inr, ◌&&◌, ◌||◌, Bool, true, false, [], ◌∷◌, Option,
  none, some, arith, ltb, Bool-cases, Option-cases, leb, ◌==◌, if◌then◌else◌, All, Among, All-Among,
}
use sc_platform.Common.{max_addr, bad_addr, bad_port, u64}
use sc_platform.Bus.Map.{TargetInfo, AddressMap, lower_bound, Below}
use sc_platform.Bus.Check.{IsSoundEntry, check_port_map, check_port_map-IsSoundMap}

-- The port, and what the call leaves in `masked_address`; `none` where it does not assign it.
pub record Decoded : Type 0 where
  pub port : ℕ
  pub masked_address : Option ℕ

decode_entry : ℕ → Option (ℕ × TargetInfo) → Decoded
decode_entry address none = record { port = bad_port; masked_address = some bad_addr }
decode_entry address (some (base, info)) =
    if base == max_addr || base == bad_addr
    then record { port = bad_port; masked_address = some bad_addr }
    else if ltb info.last address
    then record { port = bad_port; masked_address = some bad_addr }
    else record { port = info.port; masked_address = some (address - base) }

unfoldable pub decode_address : AddressMap → ℕ → Decoded
unfolding decode_entry lower_bound
decode_address m address =
    if address == bad_addr
    then record { port = bad_port; masked_address = none }
    else decode_entry address (lower_bound address m)

-- `mask_if_fits`: the test, and the address as the call leaves it.
pub mask_if_fits : ℕ → ℕ → ℕ → Bool × ℕ
mask_if_fits address start depth =
    if leb start address && ltb address (u64 (start + depth))
    then (true, address - start)
    else (false, address)

Below-base : (n : ℕ) (m : AddressMap) (e : ℕ × TargetInfo) → Below n m → Among e m → e.0 ≡ e.1.base
Below-base n [] e b here = absurd here
Below-base n ((k, i) ∷ m) e b (inl same) = ground arith
Below-base n ((k, i) ∷ m) e b (inr later) = Below-base k m e b.2 later

-- An address lies in the range of an entry.
abbrev pub Covers : ℕ → ℕ × TargetInfo → Type 0
Covers address e = (e.0 ≤ address) × (address ≤ e.1.last)

Among-Below : (n : ℕ) (m : AddressMap) (e : ℕ × TargetInfo) → Below n m → Among e m → e.0 < n
Among-Below n [] e b here = absurd here
Among-Below n ((k, i) ∷ m) e b (inl same) = ground arith
Among-Below n ((k, i) ∷ m) e b (inr later) = omega (arith, Among-Below k m e b.2 later)

lower_bound-Covers :
    (n a : ℕ) (m : AddressMap) (e : ℕ × TargetInfo)
    → Below n m
    → All (λ f. e.0 < f.0 → e.1.last < f.0) m
    → Among e m
    → Covers a e
    → lower_bound a m ≡ some e
unfolding lower_bound
lower_bound-Covers n a [] e b apart here c = absurd here
lower_bound-Covers n a ((k, i) ∷ m) e b apart (inl same) c = ground arith
lower_bound-Covers n a ((k, i) ∷ m) e b apart (inr later) c = ground (
  arith,
  Among-Below k m e b.2 later,
  apart.0 (Among-Below k m e b.2 later),
  lower_bound-Covers k a m e b.2 apart.1 later c,
)

lower_bound-Among :
    (a : ℕ) (m : AddressMap) (e : ℕ × TargetInfo) → lower_bound a m ≡ some e → Among e m × (e.0 ≤ a)
unfolding lower_bound
lower_bound-Among a [] e h = cc
lower_bound-Among a ((k, i) ∷ m) e h = elim (Bool-cases (leb k a)) [
  | inl t ↦ ground arith
  | inr f ↦
      let found : lower_bound a m ≡ some e = rw f at h in
      let (there, below) = lower_bound-Among a m e found in (inr there, below)
]

-- On a map whose keys descend and whose check counts no error, an address other than `BAD_ADDR`
-- that an entry covers decodes to that entry's port, as its offset from the entry's base.
pub decode_address_complete :
    (m : AddressMap) (e : ℕ × TargetInfo) (a : ℕ)
    → Below (2 ^ 64) m
    → (check_port_map m).mapping_errors ≡ 0
    → Among e m
    → Covers a e
    → a ≢ bad_addr
    → decode_address m a ≡ record { port = e.1.port; masked_address = some (a - e.0) }
unfolding decode_address
decode_address_complete m e a b h here c known =
    let sound =
      All-Among (λ f. IsSoundEntry m f.0 f.1) e m ((check_port_map-IsSoundMap m).0 h) here in
    let base = Below-base (2 ^ 64) m e b here in
    rw (lower_bound-Covers (2 ^ 64) a m e b sound.apart here c)
      (ground (arith, sound.base_known, base))

-- Whatever the map, a port other than the one for a failure is that of an entry which starts at or
-- below the address and does not end before it, and the masked address is the offset into it.
pub decode_address_sound :
    (m : AddressMap) (a : ℕ)
    → (decode_address m a).port ≢ bad_port
    → (e : ℕ × TargetInfo) × Among e m
      × Covers a e
      × (decode_address m a ≡ record { port = e.1.port; masked_address = some (a - e.0) })
unfolding decode_address
decode_address_sound m a h = elim (Option-cases (lower_bound a m)) [
  | inl nothing ↦ absurd (ground arith)
  | inr (e, found) ↦
      let (here, below) = lower_bound-Among a m e found in
      (e, here, (below, ground arith), ground arith)
]

-- An address that no entry covers decodes to the port for a failure.
pub decode_address_fails :
    (m : AddressMap) (a : ℕ)
    → ((e : ℕ × TargetInfo) → Among e m → ¬ Covers a e)
    → (decode_address m a).port ≡ bad_port
unfolding decode_address
decode_address_fails m a h = elim (Option-cases (lower_bound a m)) [
  | inl nothing ↦ ground arith
  | inr (e, found) ↦
      let (here, below) = lower_bound-Among a m e found in
      ground (arith, λ (c : Covers a e). h e here c)
]
