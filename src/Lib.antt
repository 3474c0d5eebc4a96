-- ===== src/Lib.antt =====
-- The control software of the OR1K platform (application/), as far as it is modelled here: the
-- drivers of the clock chip, the bit-banged bus, the pins, the PHYs, the Ethernet MAC and the
-- display, the stack's access to frames, the interrupt dispatcher, the software timers, the system
-- clock, the stored settings, and the debugger stub with its serial line.
--
-- Parts and files:
--   Bcd         application/libbase/bcd.c: u8_dec2bcd, u8_bcd2dec.
--   I2c         application/libhw/i2c.c: the bus transactions i2c_read_bus, i2c_read_bus_mul,
--               i2c_write_bus and i2c_write_bus_mul as statements that go on, leave the loop or
--               return. The bus commands are a record, since a macro chooses their implementation.
--               I2c.Slave says what they do to a slave with registers, I2c.Single has one byte.
--   Crc32       application/libhw/crc32.c: the table-driven checksum.
--   HwMath      hdl/soc/hw_math.v: the unit for checksums and products, by clock edges, with the
--               variant of crc32 that feeds it and application/libhw/__mulsi3.c.
--   Graycode    application/libbase/graycode.c: bin2gray and gray2bin.
--   MiniMac     application/libhw/minimac2.c: the slots of the MAC. find_ready_slot is
--               miniMAC_findReadySlot, and so on. The slot registers are functions of the slot.
--               MiniMac.Counters has the width of the MAC's counters.
--   Nic         application/ibexukIP/eth-nic.c: frames in and out, over MiniMac and Crc32.
--               Nic.Ownership has the steps of the MAC, from hdl/myminimac/myminimac_ctlif_cd2.v. Behind
--               a frame that is longer than MTU the memory is any memory.
--   Mdio        application/libhw/mdio.c: the registers of the PHYs. mdio_read_reg_sync is
--               MDIO_ReadREG_sync, and so on.
--   Ds1338z     application/libhw/ds1338z.c: the clock's registers and the conversion of time, over
--               I2c and Bcd. get_unix_time is ds1338z_getUnixTime, and so on. year_loop and
--               month_loop are the loops of ds1338z_setUnixTime. Ds1338z.Bus has the chip behind
--               the bus.
--   Irq         application/libhw/irq.c: default_isr is default_ISR, enter_critical and
--               exit_critical are __or1k_disable_interrupts and __or1k_enable_interrupts. The table
--               of handlers, the nesting counter and the controller's registers are one record.
--               Handlers are functions on the whole state, and lines may arrive between rounds.
--               Irq.Install has interrupts_init over Gdb, with the vectors of application/boot/boot.S.
--   ProgTimer   application/libhw/prog_timer.c: the list of timers on an explicit heap.
--   EthTimers   application/ibexukIP/timers.c: the stack's counters, over ProgTimer.
--   Timer       application/libhw/timer.c: timer_sleep on the values that its looks read.
--   Settings    application/libhw/settings.c: checksum, defaults and Settings_validate.
--               Settings.Nvram has Settings_read, Settings_write and Settings_init.
--   Gdb         application/gdb_stub/gdb.c: hexadecimal text and packets. Gdb.Stub has the commands
--               on registers and memory, Gdb.Session gdb_syscall and gdb_exception.
--               Gdb.OnLine has gdb_send and gdb_recv over GdbHw, as send_on and recv_on.
--               Gdb.Number has the numbers in commands.
--   GdbHw       application/gdb_stub/gdb_hw.c: the serial line with its ring of received
--               characters. GdbHw.Order is about receiving, GdbHw.Output about sending.
--   BbI2c       application/libhw/bb_i2c.c: the bus commands on two pins. BbI2c.Chip is a slave
--               that follows every change of the two lines, and BbI2c.Wire to BbI2c.Transfer go
--               from the lines to whole transactions.
--   Gpio        application/libhw/GPIO.c: the port's registers as functions of their bits.
--               Gpio.OpenDrain has the macros of bb_i2c.c on them.
--   Rtc         application/libhw/rtc.c: the system clock over ProgTimer and Ds1338z.
--   Seg7        application/libhw/seg7_display.c: the seven-segment display.
--   Base        numbers, lists, words, memory and tests that the parts share.
--   Tests       runs of the results on concrete data.
--
-- How the parts interact: the clock chip and the settings' memory are reached by the bus
-- transactions, whose commands BbI2c provides on two lines with a slave at their other end; the
-- system clock sets the chip and the timers' clock; frames and settings carry the same checksum; the
-- MAC and the stack share the receive slots, each writing one only while it owns it; the tick of the
-- software timers is a handler of the dispatcher and drives the counters of the stack; the
-- debugger's packets go over its serial line; changes of the dispatcher's table and of the timers'
-- clock are critical sections.
--
-- Bounds and fuel: bytes, words and times are native numbers with the wrap of their C types written
-- out. The loops over linked lists take fuel, one more than the length of the list, since every
-- round goes on to the next timer. The debugger's command loop takes fuel, one more than the number
-- of input characters, since every round reads some; so do gdb_send and gdb_recv over the line. A
-- run that needs more returns `no_fuel`, or `none` over the line. The loop of gray2bin takes fuel
-- 32, one for each bit, and the waits of the MDIO driver as many looks as the controller needs; both
-- are `none` beyond. The range of the MAC's counters is found with MTU doublings. All other loops
-- are structural recursion on the number of rounds or on the text.
--
-- Outside the model: the device behind the bus commands, malloc_sys and free_sys, the function that
-- the settings' checksum is made with, the levels at the pins, the MDIO controller, the start of the
-- stack's timers, the handlers of interrupts and timers, and the debugger's side of the link are
-- parameters. Third-party code in the repository (ibexukIP but for eth-nic.c and timers.c, coremark,
-- heap_4.c, ee_printf.c, sha1.c, base64.c, iicmb.c), the start-up assembly but for the two vectors,
-- the drivers that are one register access or assembly (serial0.c, cache.c, syscall.c) and the
-- hardware description but for the receive slots of the MAC and hw_math.v are not modelled.
pub mod Base
pub mod Bcd
pub mod I2c
pub mod Crc32
pub mod HwMath
pub mod Graycode
pub mod MiniMac
pub mod Nic
pub mod Mdio
pub mod Ds1338z
pub mod EthTimers
pub mod Irq
pub mod ProgTimer
pub mod Settings
pub mod Gdb
pub mod GdbHw
pub mod BbI2c
pub mod Gpio
pub mod Rtc
pub mod Seg7
pub mod Timer
pub mod Tests
