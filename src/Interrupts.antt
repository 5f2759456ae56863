-- ===== src/Interrupts.antt =====
-- kernel/isr.c: the table of interrupt handlers, and the descriptors for DMA transfers.
-- `s_isrs` is the list of its first `s_isr_count` entries, `intmtx` the registers of the interrupt
-- matrix. A handler and its argument are numbers.
pub mod Handlers
pub mod Dma
mod Tests
use mathlib.Core.Option
use nanos_os.Common.{
  ℕ, zero, suc, ◌+◌, ◌-◌, ◌%◌, ◌==◌, Bool, true, false, Option, none, some, List, [], ◌∷◌, ◌++◌,
  ◌&&◌, leb, ltb, if◌then◌else◌, length,
}
use nanos_os.Common.Maps.{update}
use nanos_os.Kernel.{Err, ok, err_overflow, u32_mod}

-- `isr_entry_t`
pub record IsrEntry : Type 0 where
  pub periph_num : ℕ
  pub cpu_int_num : ℕ
  pub handler : ℕ
  pub arg : ℕ
  pub registered : Bool

pub record Isrs : Type 0 where
  pub entries : List IsrEntry
  pub intmtx : ℕ → ℕ

abbrev pub max_isr_handlers : ℕ
max_isr_handlers = 32

abbrev pub cpu_int_periph : ℕ
cpu_int_periph = 3

-- The CPU interrupt for a level.
pub cpu_int : ℕ → ℕ
cpu_int level =
    if level == 1
    then 1
    else if level == 3
    then cpu_int_periph
    else if level == 5
    then 5
    else cpu_int_periph

pub isr_register : ℕ → ℕ → ℕ → ℕ → Isrs → Err × Isrs
unfolding cpu_int
isr_register periph level h arg s =
    let e : IsrEntry = record {
      periph_num = periph;
      cpu_int_num = cpu_int level;
      handler = h;
      arg = arg;
      registered = true;
    } in
    if leb max_isr_handlers (length s.entries) then (err_overflow, s) else (
      ok,
      record { entries = s.entries ++ e ∷ []; intmtx = update s.intmtx periph (cpu_int level) },
    )

-- The loop of `isr_unregister`: the first entry of the peripheral.
pub switch_off : ℕ → List IsrEntry → List IsrEntry
switch_off periph [] = []
switch_off periph (e ∷ es) =
    let rest = switch_off periph es in
    if e.periph_num == periph then record e { registered = false } ∷ es else e ∷ rest

pub isr_unregister : ℕ → Isrs → Isrs
unfolding switch_off
isr_unregister periph s = record {
  entries = switch_off periph s.entries;
  intmtx = update s.intmtx periph 0;
}

-- `_level3_dispatch`: the calls that it makes, in order, each of a handler with its argument.
pub level3_dispatch : List IsrEntry → List (ℕ × ℕ)
level3_dispatch [] = []
level3_dispatch (e ∷ es) =
    let rest = level3_dispatch es in
    if e.registered && (e.cpu_int_num == cpu_int_periph) then (e.handler, e.arg) ∷ rest else rest

-- `s_dma_desc_used`
abbrev pub dma_desc_pool_size : ℕ
dma_desc_pool_size = 64

-- `dma_desc_alloc` on the number of descriptors in use: the index of the first one, or none for NULL.
-- The sum is one of 32-bit words.
pub dma_desc_alloc : ℕ → ℕ → Option ℕ × ℕ
dma_desc_alloc count used =
    if ltb dma_desc_pool_size ((used + count) % u32_mod)
    then (none, used)
    else (some used, (used + count) % u32_mod)

-- `dma_desc_reset` on the number of descriptors in use.
pub dma_desc_reset : ℕ → ℕ
dma_desc_reset used = 0

-- `dma_desc_pool_entry_t`. `size` and `length` have 12 bits; `next` is the index of a descriptor.
pub record Desc : Type 0 where
  pub size : ℕ
  pub len : ℕ
  pub eof : Bool
  pub owner : Bool
  pub buf : ℕ
  pub next : Option ℕ

-- `dma_build_chain` from the descriptor `n` on: the descriptors written, in order. The result is none
-- if the bound on the rounds is reached.
pub dma_build_chain : ℕ → ℕ → ℕ → ℕ → ℕ → Option (List Desc)
dma_build_chain zero n ptr remaining max = none
dma_build_chain (suc f) n ptr remaining max =
    let chunk = if ltb max remaining then max else remaining in
    let d : Desc = record {
      size = chunk % 0x1000;
      len = chunk % 0x1000;
      eof = leb remaining max;
      owner = true;
      buf = ptr;
      next = if ltb chunk remaining then some (n + 1) else none;
    } in
    let rest = dma_build_chain f (n + 1) (ptr + chunk) (remaining - chunk) max in
    if remaining == 0 then some [] else Option.map (d ∷◌) rest
