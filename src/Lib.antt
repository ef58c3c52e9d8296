-- ===== src/Lib.antt =====
-- The PS side of ZYNQ_CPU: the programs that run on the Zynq's ARM core, start Linux on the PL CPU
-- and show its console.
--
-- Numbers are native, and each 32-bit operation has its wrap-around written out (Base/Word). Device
-- registers and arrays are functions from addresses to words, with a write as an update
-- (Base/Memory). Loops over a known count are `for_range` and `for_down` (Base/Loops).
--
-- Console: the text consoles of hw_bringup/ps_linux_boot.c. The file has the code twice, once with
-- the prefix `hdmi_` and once with `lcd_`; the model is one set of definitions over the constants of
-- a panel (Console/Panel), and Console/Lcd names its instances for the LCD.
--   Console/Grid     the shadow arrays and the loops that edit them
--   Console/Screen   the static variables of a console, and every function that draws; `IsValid`
--                    (Screen/Valid) is the invariant, with the agreement of the display's registers
--                    and the shadow arrays (Screen/Shown) in it
--   Console/Csi      the escape parser, `apply_csi` and `apply_sgr`, one branch for each sequence
--   Console/Putc     `hdmi_console_putc1` and `lcd_console_putc`. The tab calls the function that it
--                    stands in: `step` hands it back, and a loop of eight rounds runs it; its
--                    proofs are in Putc/Tab
--   Console/Terminal the abstract terminal, with rows and columns of glyphs, a cursor and a pen; its
--                    child modules hold the refinement
--   Console/Writer   strings, decimal and hexadecimal numbers and the diagnostic lines, over any
--                    function that takes a byte
--   Console/Panels   `hdmi_console_putc`, which gives each byte to both panels
--   Console/Init     the setup of the displays; the font of the generated header is a parameter
-- The display hardware is read as `shown_text` and `shown_attr` have it: four characters to a text
-- word and eight attributes to an attribute word, the first in the lowest bits.
--
-- Loader: `load_zx32_elf_into_imem` of hw_bringup/ps_uart_probe_common.c. The checks of the header and
-- of a segment are functions to their error codes, and the two loops are recursion on the headers left
-- and on the words of a segment. Loader/Image has the memory that a table leaves, Loader/Reads what of
-- the file the result depends on. The file is a function from offsets to bytes: what an offset outside
-- the file gives is left open.
--
-- Bridge: the Linux console of hw_bringup/ps_linux_boot.c.
--   Bridge/Markers   the matchers of `print_linux_console_mirror` for the boot's progress
--   Bridge/Mirror    the rest of that function: colours, the ring, the skip of lost bytes. The scratch
--                    memory stands still during a call; the UART and the HDMI console are any sink of
--                    bytes, and the `%u` of the UART's message is written out as decimal digits. The
--                    loop has 256 rounds, the size of the ring. Mirror/Bytes reads the ring by
--                    arithmetic, and Mirror/Shown says by logs of the outputs what is shown of a byte
--   Bridge/Input     `pump_linux_console_input`, over any receiver of bytes, with 128 rounds, the size
--                    of that ring; Input/Queue has the queue that it is
--
-- Boot: the steps of `main` in hw_bringup/ps_linux_boot.c that prepare memory: the copies of the boot
-- artifacts (Boot/Copy), the checks of their headers and of the scratch memory, and the counters that
-- are cleared (Boot/Checks).
--   Boot/Words       the registers of the PL CPU and the firmware's mailbox
--   Boot/Launch      one boot, from `restart_linux_boot` to the release of the PL CPU, in the order of
--                    the source, with each place where it stops for good. Registers, scratch memory,
--                    instruction memory and DDR are one memory, and the sensor's registers are the
--                    hardware's. The firmware of the build is a parameter, as the ELF file and as the
--                    program that the launcher compares. Launch/Keeps has what its steps leave alone,
--                    Launch/Ready what the firmware finds, Launch/Saved where the
--                    kernel and its backup are
--   Boot/Monitor     the loop that watches Linux, round by round, as it is built by default, without
--                    tracing. During one round the memory changes by the round's own writes only;
--                    between two rounds Linux may leave any memory in which the PL CPU is not held
--                    and the backup is as it was, since linux/zynq_cpu.dts reserves the backup and
--                    keeps it unmapped. Monitor/States has the whole program as a step relation over
--                    boots, rounds and Linux; Monitor/Slcr the reset registers, for the sequence of
--                    writes to them, and the delays between these are left out
-- The messages that the launcher and the monitor send to the UART by `xil_printf` are left out; those on
-- the HDMI console are in.
--
-- Mailbox: `wait_for_dma` and `wait_for_cpu` of hw_bringup/ps_uart_probe_common.c, over any device that
-- a read may change. The fuel is the number of polls in the source.
--
-- Temperature: `publish_zynq_temperature` of hw_bringup/ps_linux_boot.c with its sensor read, over any
-- device with reads and writes. The number of polls is the source's.
--
-- Image: the program of hw_bringup/userspace/image_viewer/zx32_image_viewer.c. A file is the list of its
-- bytes, and the framebuffer a function from word indices, as `mmap` hands it to the program.
--   Image            the sizes of pictures, and their bytes read and written
--   Image/Number     `parse_ulong`, with `strtoul` for an `unsigned long` of 32 bits
--   Image/Header     `read_token` and `read_ppm_header`; a number in a header that is none ends the
--                    program, which is a result of its own here
--   Image/Viewer     `main`: the arguments of the three modes, the framebuffer and the file it writes.
--                    Which files open, whether /dev/mem opens and maps and whether a file can be
--                    written are a record of the host
-- Its messages are left out, memory for a row of pixels can always be allocated, and of a file that
-- cannot be written in full nothing is said.
--
-- Gpu: the program of hw_bringup/userspace/gpu_smoke/zx32_gpu_smoke.c, on a framebuffer of 8 by 4 words
-- with a source of 2 by 2 behind it.
--   Gpu              the checks of the framebuffer; a check's result is whether it returns 0
--   Gpu/Blend        the blend of two colours
--   Gpu/Smoke        `main`: eight operations, each with the words it puts in the framebuffer, the
--                    registers it writes, its wait and its check; Gpu/Registers has their offsets
--   Gpu/Pictures     what each operation should leave, and that its check finds it
--   Gpu/Demo         the program of hw_bringup/userspace/gpu_demo/zx32_gpu_demo.c: a scene
--                    (Gpu/Scene), as a list of commands for the GPU's queue, and its picture as
--                    characters or a file
-- The GPU is any machine with registers and a framebuffer, and the clock is the number of polls that fit
-- in the time of a wait, for each wait of the smoke test its own; messages, and what is read for them, are left out. The two addresses are parameters, as
-- the arguments or the defaults give them.
--
-- Probe: the smoke tests of hw_bringup/ps_uart_probe_cpu.c, ps_uart_probe_sbi.c and ps_uart_probe_dma.c, and
-- the program that runs them, hw_bringup/ps_uart_probe.c.
--   Probe            a test with a firmware in instruction memory, as a record `Check` that `run_check`
--                    runs: the writes before the load, the load and its verification, the release of
--                    the PL CPU, the wait and the words compared. `Bench` is the board with the CPU
--                    running: any machine that starts from a memory, may change with each read, and
--                    is a memory again when the CPU is held. The waits have the source's polls
--   Probe/Registers  the words of the mailbox that the tests use, from hw_bringup/ps_uart_probe.h
--   Probe/Cpu, Sbi, Contract   the tests with a firmware, and the device tree of the contract test
--   Probe/Exec       the tests whose program the PS writes itself
--   Probe/Dma        the tests of the DataMover; Probe/Engine has what a DataMover that works is
--   Probe/Main       the program, with the reports in order
-- Probe/Polls, Verdict, Started, Arrays, Payload, Loopback and Reports prove; Probe/DeviceTree reads a
-- flattened device tree. What the tests read only to print it is left out, with their messages.
--
-- Not modelled: the register dumps of the monitor's tracing, the probes of the core
-- and of Sv32 tables, and the other Linux userspace tools, the memory benchmark and the GPU monitor, which
-- talk to devices and print; the hardware description, the firmware in assembly and the simulator are not C.
pub mod Base
pub mod Console
pub mod Loader
pub mod Bridge
pub mod Boot
pub mod Mailbox
pub mod Temperature
pub mod Image
pub mod Gpu
pub mod Probe
