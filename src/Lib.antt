-- ===== src/Lib.antt =====
-- NanosOS: a small operating system for the ESP32-S3.
--
-- The kernel (nanos_os/kernel) has a preemptive scheduler with priorities, mutexes, semaphores,
-- message queues and timers, in scheduler.c over the types of kernel.h; isr.c routes interrupts and
-- builds DMA chains. At start-up the probes of nanos_os/drivers/autodetect find out which display,
-- touch controller, codec and sensors are connected, set them up, and register them with the device
-- tree of nanos_os/system/devtree, from which the rest of the system takes its drivers. The file
-- system of nanos_os/fs keeps its blocks in flash memory behind a cache; nanos_os/usb talks to a phone
-- over the USB host stack; nanos_os/mm gives out memory; nanos_os/gui draws widgets into a frame buffer
-- and sends what has changed to the display; nanos_os/services defers calls, measures times, and keeps
-- the assets of the screens in memory.
--
-- Files:
--   Kernel      the types of kernel.h: the TCBs and timers in memory, one map from addresses per
--               field, and `g_kernel`. A pointer is an address, 0 is NULL.
--   Sched       scheduler.c: `rq_enqueue`, `rq_remove`, `sleep_enqueue`, `sched_yield_from_isr`,
--               `task_sleep_ticks`, `sched_tick_isr`, `task_create`. Ring, Ready, Removal, Yield and
--               Creation follow the run queues, Sleep, Doze and Wake the sleep queue.
--   Sync        scheduler.c: `k_mutex_*`, `k_sem_*`, `k_msgq_*`, `k_timer_start`. Locking has the steps
--               of `k_mutex_lock`, and Exclusion what they keep.
--   DevTree     device_tree.c: the registry; Registry and Update say what it keeps.
--   LcdProbe    lcd_probe.c: the table of panels, `probe_panel`, `devtree_probe_lcd`, and in
--               Sequences the init functions. View is the panel's side of the pins.
--   I2c         `i2c_read_reg8` and `i2c_read_reg16` of touch_probe.c, as transactions.
--   AudioProbe  audio_probe.c: the table of codecs, `probe_codec`, `devtree_probe_audio`, and in
--               Sequences the init functions.
--   TouchProbe  touch_probe.c: the table of touch controllers, `probe_touch_ic`, in Readers the read
--               functions, in Setup `devtree_probe_touch`, the poll task and the driver.
--   Probe       device_tree.c: `devtree_scan_i2c` and `devtree_probe_all`, which puts the probes together.
--   SensorProbe peripheral_probe.c: the table of sensors and `devtree_probe_sensors`.
--   Interrupts  isr.c: the table of handlers and its dispatcher, the DMA descriptor pool and
--               `dma_build_chain`.
--   Aap         usb/aap_transport.c: the frames, `dispatch` and the passes of the tasks; Session has
--               the tasks as steps and in Reach the states they reach.
--   Usb         usb/usb_stack.c: the channels, the steps of `hc_xfer` and `alloc_ch`, the results that
--               `usb_host_irq` sets; Channels has what the steps keep.
--   Nfs         fs/nfs.c: the block cache (Lookup, Cache, Eviction, Store), `alloc_blk` in Blocks,
--               `nfs_read` in Files and `nfs_write` in Writing.
--   Psram       mm/allocator.c: the allocator of the external memory.
--   Gui         gui/framebuffer.c: `gui_fill_rect` (Pixels, Clip, Fill), in Text the rounded rectangles
--               and the strings, with gui/font_data.c in Font, in Widgets the tree of widgets, and in
--               Render what a turn of the render task sends.
--   Services    services/event_loop.c (Deferred), services/power_manager.c, and of services/services.c
--               the profiler in Profiler and the asset manager in Assets.
--   Common      what these share: tests, lists, maps, bytes in memory, signed numbers, the insertion into
--               a linked list.
--
-- A function of the C code that changes the kernel is a function from a state to a state here. What the
-- code does with interrupts masked runs whole. `k_mutex_lock` masks them only to enter the list of
-- waiters: Sync/Locking splits it at each of its accesses to the mutex, so that any code can run between
-- two of them, and likewise Usb splits `hc_xfer` and `alloc_ch`. The loop of `k_sem_take` is cut into
-- passes, between which other tasks run; a pass is taken whole, although the code reads and swaps the
-- count with interrupts enabled. Nor are the other functions split at the points between `irq_restore`
-- and the `task_yield` that follows it. Loops over linked lists in memory take a bound on their rounds; the
-- theorems on them show that one more than the length of the list is enough; for
-- `dma_build_chain`, `nfs_read` and `nfs_write` one more than the number of bytes.
-- The answers of the hardware are parameters: what a display or a chip on a bus sends back is a
-- function of the operations before, with no hypothesis on it. The callbacks of timers are a
-- parameter too.
--
-- The drawing of widgets goes down the tree on fuel of 128, the size of the table, and up the parents
-- on as much; that this is enough is shown for trees whose widgets are added to ones created before.
-- The square root of the rounded corners and the drawing functions of the applications are parameters
-- with no hypothesis. A call of an `init_fn` that is no function ends the run of the probes.
--
-- The routines of the ROM behind the flash driver are a map of blocks, of which a read may fail. The
-- inodes that `nfs_write` gives to `flash_write` are listed: it does not erase their sector before, and
-- what the flash memory then holds is not modelled.
-- The passes of the tasks of the transport are steps in any order; the bounded queues between them are
-- those that Sync/Queues refines.
--
-- The result of a touch controller is memory from the start of its array of five points on, so that a
-- write behind the array is seen. How the wait of `hc_xfer` for `done` ends is open.
--
-- Not modelled: the start of the kernel, the heap and the slabs, the directory and the formatting of the
-- file system, animations, which count in floating point, the audio pipeline, the register-level drivers of
-- the display, the flash memory and one touch controller, and the applications, which are glue; the radio
-- services are stubs; log output; registers of the hardware behind one transfer on a bus.
pub mod Common
pub mod Kernel
pub mod Sched
pub mod Sync
pub mod DevTree
pub mod LcdProbe
pub mod I2c
pub mod AudioProbe
pub mod TouchProbe
pub mod SensorProbe
pub mod Interrupts
pub mod Aap
pub mod Gui
pub mod Nfs
pub mod Probe
pub mod Psram
pub mod Services
pub mod Usb
