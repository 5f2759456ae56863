-- ===== src/Interrupts/Tests.antt =====
-- The theorems on kernel/isr.c at small states.
use nanos_os.Common.{◌≡◌, ◌<◌, ◌≤◌, ◌⊎◌, some, List, [], ◌∷◌, ◌++◌, arith, true, length}
use nanos_os.Kernel.{ok, err_overflow}
use nanos_os.Interrupts.{
  Isrs, Desc, max_isr_handlers, cpu_int_periph, isr_register, level3_dispatch, dma_build_chain,
}
use nanos_os.Interrupts.Handlers.{isr_register_lem}
use nanos_os.Interrupts.Dma.{Covers, dma_build_chain-Covers}

abbrev usb : Isrs
usb = record {
  entries =
      record { periph_num = 33; cpu_int_num = 3; handler = 7; arg = 0; registered = true } ∷ [];
  intmtx = λ p. 0;
}

isr_register_lem_example :
    let (r, s') = isr_register 18 3 8 1 usb in
    ((length usb.entries < max_isr_handlers)
      × (r ≡ ok)
      × (level3_dispatch s'.entries ≡ level3_dispatch usb.entries ++ (8, 1) ∷ [])
      × (s'.intmtx 18 ≡ cpu_int_periph))
    ⊎ ((max_isr_handlers ≤ length usb.entries) × (r ≡ err_overflow) × (s' ≡ usb))
isr_register_lem_example = isr_register_lem 18 8 1 usb

dma_build_chain-Covers_example :
    (ds : List Desc) × (dma_build_chain 11 0 1000 10 4 ≡ some ds) × Covers 4 0 1000 10 ds
dma_build_chain-Covers_example =
    dma_build_chain-Covers 11 0 1000 10 4 (omega arith) (omega arith) (omega arith)
