-- ===== src/Lib.antt =====
-- The C code of the kmm dashboard image: the Linux drivers that talk to the M-core over rpmsg, the
-- firmware of that core, and the small programs that show a picture or watch the display, modelled
-- function by function.
--
-- The A-core runs Linux, the M-core bare metal; they exchange messages over rpmsg. Two kernel modules
-- of this repository are rpmsg clients. One watches that the M-core is alive, one turns an rpmsg
-- channel into a SocketCAN interface. On the M-core stand three firmwares: an echo server, a simulator
-- that streams CAN frames, and a console demonstration.
-- The simulator writes the 16-byte frames that the SocketCAN driver reads (CanSim/Batch uses
-- Can/Frames); CanSim/Chain runs the two together, from the open of the interface on, and Rtt/Served
-- and CharRtt/Served run the measuring tools against the echo server. Base/Mail is the rpmsg channel
-- between them: what a send accepts arrives in order.
--
-- Files:
--   Base               list, word and byte helpers: `set`, `get_or`, `copy` for a bounded memcpy,
--                      u8 to u64 for the wrap of a machine integer, le16 and le32 for byte order
--   Bus                memory-mapped registers: a log of writes, and reads that the hardware chooses
--   Keepalive          meta-kart/recipes-kernel-imx/mcore-keepalive/files/mcore-keepalive.c:
--                      mcka_timeout, mcka_cb, mcka_probe, mcka_remove, the attributes. Below it Wire
--                      (the message), Run (events), Counters, Watch, Journal
--   Can                meta-kart/recipes-kernel-imx/rpmsg-can/files/rpmsg-can.c: one function for each
--                      rpmsg_can_* function. Below it Frames, Control, and Sessions (the events of an
--                      interface) with Totals and Link
--   CanSim             m4/can-sim/main.c: rx_cb, send_frame, put_u16be and main, cut into steps. Below
--                      it Clock (sctr_now), Batch (the frames), Stream (the loop), Runs, Pacer (the
--                      rounds at their deadlines), Start (main from the reset on), Chain (with Can)
--   Echo               m4/rpmsg-echo/main.c: rx_cb and the loop of main, cut into steps. Below it Slot,
--                      Rounds, Start (its UART functions, and main up to the loop), Main
--   Uart               m4/hello-world/hello.c: uart4_init, uart4_putc, uart4_puts, uart4_put_dec and
--                      main_loop. Below it Setup, Text, Digits
--   UartTest           m4/uart-test/main.c: uart4_init, uart4_putc, uart4_puts and main. Below it Hex
--   ClkTest            m4/clk-test/main.c: main. Below it Crumbs
--   Shim               m4/shim/fsl_mu.h and fsl_device_registers.h, and the tables of
--                      m4/can-sim/startup.c and rsc_table.c. Below it Nvic, Mu, Interrupts, Vectors
--   Rtt                m4/tools/rpmsg-rtt.c: main. Below it Measure, Report, Main, Lossless, Served
--                      (with Echo), and Sort (a `qsort`)
--   CharRtt            m4/tools/rpmsg-char-rtt.c: main, with cmp_ll and ns_now. Below it Report, Served
--                      (with Echo)
--   Bridge             tools/teensy-uart-bridge/src/main.cpp: setup, loop, pump, syncBaud, diagReport
--                      over an interface of serial ports. Below it Laws (what is assumed of the
--                      ports), Buffer, Pump, Sides, Carries, Ops, Ends, Baud, and Queues (an instance)
--   LibcMin            m4/shim/libc_min.c: malloc, memset, memcpy, memcmp, strlen, strncpy, strcmp and
--                      strncmp. Below it Heap, Memory, Strings
--   SplashWl           meta-kart/recipes-graphics/splash-wl/files/splash-wl.c: draw, main. Below it Draw,
--                      Main
--   Wayland            what splash-wl.c and wl-image-view.c do before they draw, and after it. Below
--                      it Globals, Setup, Resident
--   WlImageView        meta-kart/recipes-graphics/wl-image-view/files/wl-image-view.c: the loading loop,
--                      the placing loops, main. Below it Load, Place, Args (the command
--                      line), Command
--   DrmView            meta-kart/recipes-graphics/drm-image-view/files/drm-image-view.c: main and the
--                      frames of the animation. Below it Choose, Copy, Start (main), Picture, Bar,
--                      Flips
--   DrmDump            meta-kart/recipes-graphics/drm-atomic-dump/files/drm-atomic-dump.c: find_prop,
--                      do_strip. Below it Ioctl (vt_prepare, do_setcrtc, do_noevent, ioctl), Dump
--                      (dump_atomic, modeline), Events (read), Find, Strip, Rewrite, Step,
--                      Calls, Session (ioctl and read with the file they share), Story
--
-- How the code corresponds. A handler takes the state it changes and returns it anew. The state of a C
-- struct or of the statics of a file is a record with the same field names; the calls that a driver
-- makes of the kernel and the messages that a firmware sends are kept as lists, newest first. An access
-- out of range gives `none`. Where an interrupt may come between two statements, the main loop is a
-- step function over a `Place`, and events order the steps and the interrupts. Machine integers are
-- natural numbers with their wrap written out.
--
-- Parameters, because their code is not in this repository: `msecs_to_jiffies`, `jiffies`,
-- `rpmsg_send`, `rpmsg_trysend`, the SocketCAN core (`Kernel` in Can), `rpmsg_lite_send`, libdrm
-- (`Drm` in DrmDump, `Card` in DrmView), `malloc`, the Teensy core (`Ports` in Bridge), the calls
-- of the operating system (`Os` in CharRtt) and `qsort`, the compositor's events, what `read`
-- delivers, `atoi`, the values that hardware registers return, and whether a read hangs (`alive` in
-- ClkTest); and, as generated data, the bits of the logo. What is assumed of one of them is a
-- hypothesis of the theorem that uses it: that `can_dropped_invalid_skb` lets no frame longer than
-- 8 bytes through and counts what it drops (SkbCheck), that the transmitter drains (Drains), that
-- RFDIV 5 divides the UART's clock by 1, that the system counter runs forward and not by 2^32 within
-- six reads, that a read of a file brings its bytes in order (ReadsFile), that the answer to the
-- warm-up of rpmsg-rtt comes in one read (its VMIN is 16), that `qsort` sorts (Sorts), that a serial
-- port of the bridge takes a write of at most `availableForWrite` bytes whole and hands out in order
-- what waits at it (IsLawful; what a UART drops because its own buffer is full never waits), that the
-- ports bring finitely many bytes (Finite) and keep the speed that is set (HasSpeed), that the
-- display's calls succeed (Works) and that there is memory (Allocates).
--
-- Bounds and fuel. `reset_wait` has the 100000 rounds of the source, `connects` the 1000 attempts.
-- `sctr_now` needs two rounds, `dec_loop` ten; the loops over the events of DrmDump and over the
-- reads of WlImageView need one for each byte and one more; the measuring loop of Rtt makes at most
-- n + 51 attempts; the loop of Bridge that throws bytes away needs one round more than the UART
-- brings bytes. The waits for the transmitter have no bound in the source; their fuel is any
-- bound within which the hardware answers.
--
-- Not modelled: locking inside one handler (each handler of Keepalive is one step, as the spinlock
-- makes it), the priorities and text of kernel log lines beyond which line it is, sysfs and the
-- module boilerplate, the delay loops, the text that the tools print, the wait for the rpmsg link,
-- which has no bound, and the picture data of the logo. The breadcrumbs DBG are taken as words of
-- their own, zero at the start. The DDR timing tables
-- (meta-kart/recipes-bsp-imx/u-boot/files/debix-lpddr4_timing.c) are register values from the board
-- vendor's U-Boot, adjusted for another memory die: they have no code of their own, and what reads
-- them is U-Boot's.
pub mod Base
pub mod Bridge
pub mod Bus
pub mod Can
pub mod CanSim
pub mod CharRtt
pub mod ClkTest
pub mod DrmDump
pub mod DrmView
pub mod Echo
pub mod Keepalive
pub mod LibcMin
pub mod Rtt
pub mod Shim
pub mod SplashWl
pub mod Uart
pub mod UartTest
pub mod Wayland
pub mod WlImageView
