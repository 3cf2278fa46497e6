-- ===== src/Pic/Actions.antt =====
-- `Pic_module::write_actions` and `Pic_module::read_actions` of interrupt/pic.cpp. The CPU's name is
-- that of the transaction's extension, `none` where it has none.
use Prim.Native.String.{String}
use sc_platform.Prelude.{
  ℕ, zero, suc, ◌+◌, ◌*◌, ◌%◌, ◌^◌, bit_or, Bool, true, false, not, ◌&&◌, ◌||◌, Option, none, some,
  List, [], ◌∷◌, ◌++◌, ltb, ◌==◌, if◌then◌else◌, length, get_elem?, set, Outcome, done, aborted,
  ◌>>=◌, ◌>>◌, require, defined,
}
use sc_platform.Common.{u32}
use sc_platform.Pic.{Pic, Source, regs_size, invalid_irq, load, store, bit, flag, identify}

abbrev pub next_reg : ℕ
next_reg = 0

abbrev pub done_reg : ℕ
done_reg = 4

abbrev pub target_reg : ℕ
target_reg = 8

abbrev pub ident_reg : ℕ
ident_reg = 12

abbrev pub config_reg : ℕ
config_reg = 16

abbrev pub select_reg : ℕ
select_reg = 20

abbrev pub source_reg : ℕ
source_reg = 24

abbrev pub targets_reg : ℕ
targets_reg = 28

abbrev tail : List ℕ → List ℕ
tail [] = []
tail (x ∷ xs) = xs

-- `pop_back` on a list that is not empty.
abbrev pop_back : List ℕ → List ℕ
pop_back [] = []
pop_back (x ∷ []) = []
pop_back (x ∷ y ∷ ys) = x ∷ pop_back (y ∷ ys)

-- `active = false` for the source, if there is one.
deactivate : ℕ → List Source → List Source
deactivate i [] = []
deactivate zero (x ∷ xs) = record x { active = false } ∷ xs
deactivate (suc i) (x ∷ xs) = x ∷ deactivate i xs

write_done : ℕ → ℕ → Pic → Outcome Pic
unfolding deactivate
write_done target source s = do
  level ← defined (get_elem? s.target_level target)
  require (ltb 1 (length level))
  done (record s {
    source_irq = deactivate source s.source_irq;
    target_level = set s.target_level target (tail level);
  })

unfoldable pub clear : List Source → List Source
clear [] = []
clear (x ∷ xs) = record x { pending = false; active = false } ∷ clear xs

-- The source writes `&&` for `&`, so each of the three fields is whether the word is not zero.
unfoldable pub write_target : ℕ → Pic → Outcome Pic
unfolding clear
write_target target s = do
  v ← load target_reg s.registers
  let set_bits = not (v == 0)
  let mask = if set_bits then 1 else 0
  old ← defined (get_elem? s.target_irq target)
  level ← defined (get_elem? s.target_level target)
  done (record s {
    target_irq =
        set s.target_irq target (record { clearall = set_bits; enabled = set_bits; mask = mask });
    target_level = set s.target_level target (pop_back level ++ mask ∷ []);
    source_irq = if set_bits then clear s.source_irq else s.source_irq;
  })

write_select : ℕ → Pic → Outcome Pic
write_select target s = do
  v ← load select_reg s.registers
  done (record s { target_select = set s.target_select target v })

write_source : ℕ → Pic → Outcome Pic
write_source source s = do
  v ← load source_reg s.registers
  x ← defined (get_elem? s.source_irq source)
  done (record s {
    source_irq =
        set s.source_irq source
          (record x { pending = bit 10 v; enabled = bit 8 v; priority = v % 256 });
  })

write_targets : ℕ → Pic → Outcome Pic
write_targets source s = do
  v ← load targets_reg s.registers
  x ← defined (get_elem? s.source_targets source)
  done (record s { source_targets = set s.source_targets source v })

-- The switch, after the target and the source that it has selected are known.
write_register : ℕ → ℕ → ℕ → Pic → Outcome Pic
unfolding write_done write_target write_select write_source write_targets
write_register address target source s =
    if address == next_reg || address == ident_reg || address == config_reg
    then done s
    else if address == done_reg
    then write_done target source s
    else if address == target_reg
    then write_target target s
    else if address == select_reg
    then write_select target s
    else if address == source_reg
    then write_source source s
    else if address == targets_reg
    then write_targets source s
    else aborted

unfoldable pub write_actions : ℕ → Option String → Pic → Outcome Pic
unfolding write_register identify
write_actions address none s = aborted
write_actions address (some cpu) s = do
  let r = identify cpu s.target_id
  source ← defined (get_elem? s.target_select r.0)
  require (length s.registers == regs_size)
  write_register address r.0 source (record s { target_id = r.1 })

-- The loop over the sources from number `i`: `best` is the highest so far with its priority.
unfoldable pub highest : ℕ → ℕ → List Source → Option (ℕ × ℕ) → Option (ℕ × ℕ)
highest mask i [] best = best
highest mask i (x ∷ xs) best =
    let candidate = x.pending && ltb mask x.priority in
    let beats : Bool = elim best [ none ↦ true | some b ↦ ltb b.1 x.priority ] in
    highest mask (i + 1) xs (if candidate && beats then some (i, x.priority) else best)

unfoldable pub activate : ℕ → List Source → List Source
activate i [] = []
activate zero (x ∷ xs) = record x { active = true } ∷ xs
activate (suc i) (x ∷ xs) = x ∷ activate i xs

-- What the NEXT register gives, and the sources after it is read.
unfoldable pub next_irq : ℕ → List Source → ℕ × List Source
unfolding highest activate
next_irq mask sources = elim (highest mask 0 sources none) [
  | none ↦ (invalid_irq, sources)
  | some b ↦ (b.0, if ltb b.0 invalid_irq then activate b.0 sources else sources)
]

unfoldable pub read_next : ℕ → Pic → Outcome Pic
unfolding next_irq
read_next target s = do
  t ← defined (get_elem? s.target_irq target)
  let r = next_irq t.mask s.source_irq
  regs ← store next_reg r.0 s.registers
  done (record s { registers = regs; source_irq = r.1 })

-- The number of the target goes into the CONFIG register here.
read_target : ℕ → Pic → Outcome Pic
read_target target s = do
  t ← defined (get_elem? s.target_irq target)
  c ← load config_reg s.registers
  regs ← store config_reg (bit_or c (u32 (target * 2 ^ 16))) s.registers
  regs ← store target_reg (flag 9 t.clearall + flag 8 t.enabled + t.mask % 256) regs
  done (record s {
    registers = regs;
    target_irq = set s.target_irq target (record t { clearall = false });
  })

read_value : ℕ → ℕ → Pic → Outcome Pic
read_value address v s = do regs ← store address v s.registers; done (record s { registers = regs })

read_source : ℕ → Pic → Outcome Pic
unfolding read_value
read_source source s = do
  x ← defined (get_elem? s.source_irq source)
  read_value source_reg (flag 10 x.pending + flag 9 x.active + flag 8 x.enabled + x.priority % 256)
      s

read_targets : ℕ → Pic → Outcome Pic
unfolding read_value
read_targets source s = do
  v ← defined (get_elem? s.source_targets source)
  read_value targets_reg v s

read_register : ℕ → ℕ → ℕ → Pic → Outcome Pic
unfolding read_next read_target read_value read_source read_targets
read_register address target source s =
    if address == next_reg
    then read_next target s
    else if address == done_reg
    then read_value done_reg 0 s
    else if address == target_reg
    then read_target target s
    else if address == ident_reg
    then read_value ident_reg 0xD0410501 s
    else if address == config_reg
    then read_value config_reg (length s.target_id % 2 ^ 16 * 2 ^ 16 + length s.source_irq % 2 ^ 16)
        s
    else if address == select_reg
    then read_value select_reg source s
    else if address == source_reg
    then read_source source s
    else if address == targets_reg
    then read_targets source s
    else aborted

unfoldable pub read_actions : ℕ → Option String → Pic → Outcome Pic
unfolding read_register identify
read_actions address none s = aborted
read_actions address (some cpu) s = do
  let r = identify cpu s.target_id
  source ← defined (get_elem? s.target_select r.0)
  read_register address r.0 source (record s { target_id = r.1 })
