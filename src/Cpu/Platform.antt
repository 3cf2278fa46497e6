-- ===== src/Cpu/Platform.antt =====
-- The processor of cpu/cpu.cpp on the bus of bus/bus.cpp with memories of memory/memory.cpp behind its ports: what a
-- task writes it reads back.
use sc_platform.Prelude.{
  ℕ, ◌-◌, ◌^◌, ◌<◌, ◌≡◌, refl, sym, ap, ◌∙◌, ◌≢◌, false, none, some, List, [], arith, ◌==◌,
  if◌then◌else◌, slice, overwrite, Among, Outcome, done, aborted, undefined, ◌>>=◌, defined,
}
use sc_platform.Common.{bad_addr, Payload, Command, read, write, default, lt}
use sc_platform.Memory
use sc_platform.Memory.{Env, Memory, Served, first_error}
use sc_platform.Memory.Safety.{IsValid}
use sc_platform.Memory.Contents.{IsServable, after_write, b_transport-write, b_transport-read-write}
use sc_platform.Bus.Map.{TargetInfo}
use sc_platform.Bus.Decode.{Covers}
use sc_platform.Bus.Route
use sc_platform.Bus.Route.{Bus, Routed, refused, passed}
use sc_platform.Bus.Route.Laws.{IsReady, b_transport_delivers}
use sc_platform.Cpu.{transaction, record_transaction}
use sc_platform.Cpu.Words.{length-to_bytes, of_bytes-to_bytes, all_back}
use sc_platform.Cpu.Dmi.{find_region}
use sc_platform.Cpu.Loosely.{
  Reply, Fabric, Cpu, Moved, settle, direct, to_bytes, of_bytes, regular, loosely_timed, by_style,
  transport, write_word, read_word,
}

-- The memories, by their ports.
abbrev pub Memories : Type 0
Memories = ℕ → Memory

abbrev store : Memories → ℕ → Memory → Memories
store w port m p = if p == port then m else w p

unfoldable pub over_bus : Env → Memories → ℕ → Routed → Outcome (Memories × Reply)
over_bus env w delay (refused trans) =
    done (w, record { trans = trans; delay = delay; dmi_allowed = false })
over_bus env w delay (passed port trans) = do
  s ← Memory.b_transport env (w port) trans delay
  done (store w port s.memory, record { trans = s.trans; delay = s.delay; dmi_allowed = false })

unfoldable pub bus_call : Env → Bus → Memories → Payload → ℕ → Outcome (Memories × Reply)
unfolding over_bus
bus_call env b w trans delay = do r ← Route.b_transport b trans; over_bus env w delay r

-- No memory gives a hint, and the quantum is never reached.
abbrev pub platform : Env → Bus → Fabric Memories
platform env b = record {
  b_transport = bus_call env b;
  get_direct_mem_ptr = λ w trans. done (w, none);
  block = λ w n. [];
  set_block = λ w n bytes. w;
  sync = λ delay. delay;
}

done-injective : (s t : Served) → done s ≡ done t → s ≡ t
done-injective s t same = ap (λ o. elim o [ done u ↦ u | aborted ↦ s | undefined ↦ s ]) same

module _ (env : Env) (b : Bus) (e : ℕ × TargetInfo)
    (approximately : Cpu → Memories → Command → ℕ → List ℕ → ℕ → Outcome (Moved Memories)) where
  -- What a served call leaves of the processor.
  abbrev after : Cpu → Command → ℕ → ℕ → ℕ → Cpu
  after c command address len delay = record c {
    prev_style = lt;
    statistics = record_transaction command address len lt c.statistics;
    local_time = delay;
  }

  bus_call-served :
      (w : Memories) (trans : Payload) (delay : ℕ) (s : Served)
      → Route.b_transport b trans
        ≡ done (passed e.1.port (record trans { address = trans.address - e.0 }))
      → Memory.b_transport env (w e.1.port) (record trans { address = trans.address - e.0 }) delay
        ≡ done s
      → bus_call env b w trans delay
        ≡ done (
          store w e.1.port s.memory,
          record { trans = s.trans; delay = s.delay; dmi_allowed = false },
        )
  unfolding bus_call
  bus_call-served w trans delay s delivered served =
      ap (λ m. m >>= over_bus env w delay) delivered
      ∙ ap
          (λ m. m >>= λ s. done (
            store w e.1.port s.memory,
            record { trans = s.trans; delay = s.delay; dmi_allowed = false },
          ))
          served

  settle-plain :
      (c : Cpu) (address delay : ℕ) (w : Memories) (trans : Payload) (bytes' : List ℕ)
      → trans.bytes ≡ some bytes'
      → settle
          (platform env b)
          c
          address
          (w, record { trans = trans; delay = delay; dmi_allowed = false })
        ≡ done (record { cpu = record c { local_time = delay }; world = w; bytes = bytes' })
  unfolding settle
  settle-plain c address delay w trans bytes' moved =
      ap
        (λ o. defined o >>= λ bytes.
          done (record { cpu = record c { local_time = delay }; world = w; bytes = bytes }))
        moved

  loosely_timed-regular :
      (c : Cpu) (w : Memories) (command : Command) (address : ℕ) (bytes : List ℕ) (len : ℕ)
      → c.dmi_table ≡ []
      → loosely_timed (platform env b) c w command address bytes len
        ≡ regular (platform env b) (record c { prev_style = lt }) w command address bytes len
  unfolding loosely_timed find_region
  loosely_timed-regular c w command address bytes len no_regions =
      ap
        (λ t. elim (find_region command address t) [
          | none ↦
              regular (platform env b) (record c { prev_style = lt }) w command address bytes len
          | some r ↦
              direct (platform env b) (record c { prev_style = lt }) w command address bytes len r
        ])
        no_regions

  transport-lt :
      (c : Cpu) (w : Memories) (command : Command) (address : ℕ) (bytes : List ℕ) (len : ℕ)
      → c.coding_style ≡ lt
      → transport (platform env b) approximately c w command address bytes len default
        ≡ loosely_timed
            (platform env b)
            (record c { statistics = record_transaction command address len lt c.statistics })
            w
            command
            address
            bytes
            len
  unfolding transport by_style
  transport-lt c w command address bytes len style =
      ap
        (λ t.
          by_style (platform env b) approximately
            (record c { statistics = record_transaction command address len t c.statistics }) w
            command address bytes len t)
        style

  -- A call of a processor with the loosely timed style and no regions goes to the memory.
  transport-served :
      (c : Cpu) (w : Memories) (command : Command) (address : ℕ) (bytes bytes' : List ℕ) (len : ℕ)
      (s : Served)
      → IsReady b
      → Among e b.addr_map
      → Covers address e
      → address ≢ bad_addr
      → e.1.port < b.targets
      → c.coding_style ≡ lt
      → c.dmi_table ≡ []
      → Memory.b_transport env
          (w e.1.port)
          (transaction command (address - e.0) bytes len)
          c.local_time
        ≡ done s
      → s.trans.bytes ≡ some bytes'
      → transport (platform env b) approximately c w command address bytes len default
        ≡ done (record {
          cpu = after c command address len s.delay;
          world = store w e.1.port s.memory;
          bytes = bytes';
        })
  unfolding regular
  transport-served c w command address bytes bytes' len s r here covers known has style no_regions
        served moved =
      let trans = transaction command address bytes len in
      let called =
        bus_call-served w trans c.local_time s
          (b_transport_delivers b e trans r here covers known has) served in
      let c1 = record c { statistics = record_transaction command address len lt c.statistics } in
      let c2 = record c1 { prev_style = lt } in
      transport-lt c w command address bytes len style
      ∙ loosely_timed-regular c1 w command address bytes len no_regions
      ∙ ap (λ m. m >>= settle (platform env b) c2 address) called
      ∙ settle-plain c2 address s.delay (store w e.1.port s.memory) s.trans bytes' moved

  store-same : (w : Memories) (m : Memory) (port : ℕ) → store w port m port ≡ m
  store-same w m port = ground arith

  -- What may be written may be read.
  read-IsServable :
      (m : Memory) (offset value old n : ℕ)
      → IsServable m (transaction write offset (to_bytes n value) n) (to_bytes n value)
      → IsServable m (transaction read offset (to_bytes n old) n) (to_bytes n old)
  unfolding first_error
  read-IsServable m offset value old n s = record {
    buffered = record {
      holds = refl;
      long = omega (arith, length-to_bytes n old);
      no_wrap = s.buffered.no_wrap;
    };
    fine = let fine = s.fine in ground arith;
  }

  -- A write to a memory and a read after it.
  write_read :
      (m : Memory) (wt rt : Payload) (wptr rptr : List ℕ) (delay : ℕ)
      → IsValid m
      → IsServable m wt wptr
      → IsServable m rt rptr
      → wt.command ≡ write
      → rt.command ≡ read
      → rt.address ≡ wt.address
      → rt.data_length ≡ wt.data_length
      → (s t : Served) × (s.trans.bytes ≡ wt.bytes)
        × (Memory.b_transport env m wt delay ≡ done s)
        × (Memory.b_transport env s.memory rt s.delay ≡ done t)
        × (t.trans.bytes ≡ some (overwrite 0 (slice 0 wt.data_length wptr) rptr))
  write_read m wt rt wptr rptr delay v sw sr is_write is_read same_address same_length =
      let s = after_write env m wt wptr delay in
      let served = b_transport-write env m wt wptr delay v sw is_write in
      let (s', t, served', got, back, kept) =
        b_transport-read-write env m wt rt wptr rptr delay s.delay v sw sr is_write is_read
          same_address same_length in
      let same : s ≡ s' = done-injective s s' (sym served ∙ served') in
      (s, t, refl, served, ap (λ u. Memory.b_transport env u.memory rt s.delay) same ∙ got, back)

  -- A bus is ready if the keys of its map descend, the map's check counts no error, and it has fewer
  -- targets than `BAD_PORT`; a memory is valid if its two vectors have one length, which is not 0 and at
  -- most the configured size, and 1024 more than that size is at most 2^32. On a ready bus before
  -- memories that give no hint, with a quantum that is never reached: a processor of the loosely timed
  -- style without regions that writes a word of `n` bytes, at an address other than `BAD_ADDR` that an
  -- entry with a bound port covers, to a valid memory whose checks the write passes, the offset into the
  -- entry and `n` having a sum below 2^64, and then reads at that address, reads the value it wrote, if
  -- that is below `256 ^ n`.
  pub read_word-write_word :
      (c : Cpu) (w : Memories) (n address value old : ℕ)
      → IsReady b
      → Among e b.addr_map
      → Covers address e
      → address ≢ bad_addr
      → e.1.port < b.targets
      → c.coding_style ≡ lt
      → c.dmi_table ≡ []
      → IsValid (w e.1.port)
      → IsServable
          (w e.1.port)
          (transaction write (address - e.0) (to_bytes n value) n)
          (to_bytes n value)
      → value < 256 ^ n
      → (m m' : Moved Memories) × (write_word (platform env b) approximately n c w address value
          ≡ done m)
        × (read_word (platform env b) approximately n m.cpu m.world address old ≡ done (m', value))
  unfolding write_word read_word
  read_word-write_word c w n address value old r here covers known has style no_regions v sw small =
      let wptr = to_bytes n value in
      let rptr = to_bytes n old in
      let offset = address - e.0 in
      let wt = transaction write offset wptr n in
      let rt = transaction read offset rptr n in
      let sr = read-IsServable (w e.1.port) offset value old n sw in
      let (s, t, held, served, again, back) =
        write_read (w e.1.port) wt rt wptr rptr c.local_time v sw sr refl refl refl refl in
      let c' = after c write address n s.delay in
      let w' = store w e.1.port s.memory in
      let later = ap (λ m. Memory.b_transport env m rt s.delay) (store-same w s.memory e.1.port) in
      let first =
        transport-served c w write address wptr wptr n s r here covers known has style no_regions
          served held in
      let second =
        transport-served c' w' read address rptr wptr n t r here covers known has style no_regions
          (later ∙ again) (back ∙ ap some (all_back n value old)) in
      (
        record { cpu = c'; world = w'; bytes = wptr },
        record {
          cpu = after c' read address n t.delay;
          world = store w' e.1.port t.memory;
          bytes = wptr;
        },
        first,
        ap (λ m. m >>= λ m. done (m, of_bytes m.bytes)) second
            ∙ ap
                (λ k. done (
                  record {
                    cpu = after c' read address n t.delay;
                    world = store w' e.1.port t.memory;
                    bytes = wptr;
                  },
                  k,
                ))
                (of_bytes-to_bytes n value small),
      )
