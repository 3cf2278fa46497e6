-- ===== src/Bus/Reconstruct.antt =====
-- `Bus_module::reconstruct_address` of bus/bus.cpp. What it does with `min_address`, `max_address`
-- and `bias_upwards` reaches only local variables, never the result.
use sc_platform.Prelude.{
  ℕ, ◌+◌, ◌-◌, ◌<◌, ◌≤◌, ◌^◌, ◌≡◌, refl, inl, inr, ◌&&◌, not, [], ◌∷◌, arith, leb, ◌==◌,
  if◌then◌else◌, All, Among,
}
use sc_platform.Common.{bad_addr, u64}
use sc_platform.Bus.Map.{TargetInfo, AddressMap}

unfoldable pub reconstruct_address : AddressMap → ℕ → ℕ → ℕ
reconstruct_address [] address port = bad_addr
reconstruct_address ((k, i) ∷ m) address port =
    let rest = reconstruct_address m address port in
    if not (i.port == port)
    then rest
    else if leb i.base address && leb address i.last
    then u64 (i.base + address)
    else rest

-- No other entry has the entry's port.
abbrev pub OnlyEntry : ℕ × TargetInfo → AddressMap → Type 0
OnlyEntry e = All (λ f. f.1.port ≡ e.1.port → (f.1.base ≡ e.1.base) × (f.1.last ≡ e.1.last))

reconstruct_address_low :
    (m : AddressMap) (e : ℕ × TargetInfo) (a : ℕ)
    → OnlyEntry e m
    → a < e.1.base
    → reconstruct_address m a e.1.port ≡ bad_addr
unfolding reconstruct_address
reconstruct_address_low [] e a o h = refl
reconstruct_address_low ((k, i) ∷ m) e a o h =
    ground (arith, o.0, reconstruct_address_low m e a o.1 h)

reconstruct_address_high :
    (m : AddressMap) (e : ℕ × TargetInfo) (a : ℕ)
    → OnlyEntry e m
    → Among e m
    → e.1.base ≤ a
    → a ≤ e.1.last
    → reconstruct_address m a e.1.port ≡ u64 (e.1.base + a)
unfolding reconstruct_address
reconstruct_address_high [] e a o here lo hi = absurd here
reconstruct_address_high ((k, i) ∷ m) e a o (inl same) lo hi = ground (arith, o.0)
reconstruct_address_high ((k, i) ∷ m) e a o (inr later) lo hi =
    ground (arith, o.0, reconstruct_address_high m e a o.1 later lo hi)

-- Where one entry alone has a port, the offset of an address that it covers is taken back to the
-- address if the offset is at least the entry's base, and to `BAD_ADDR` otherwise.
pub reconstruct_address_offset :
    (m : AddressMap) (e : ℕ × TargetInfo) (a : ℕ)
    → OnlyEntry e m
    → Among e m
    → e.1.base ≤ a
    → a ≤ e.1.last
    → a < 2 ^ 64
    → reconstruct_address m (a - e.1.base) e.1.port
      ≡ (if leb e.1.base (a - e.1.base) then a else bad_addr)
reconstruct_address_offset m e a o here lo hi wide = ground (
  arith,
  reconstruct_address_low m e (a - e.1.base) o,
  reconstruct_address_high m e (a - e.1.base) o here,
)
