-- ===== src/Tests.antt =====
-- Runs of the modelled code on concrete data.
mod Clock
mod Interrupts
mod Timers
mod Wire
mod Restart
mod Stored
mod Debugger
mod Commands
mod Pins
mod SystemClock
mod Chip
mod Ethernet
mod Codes
mod Serial
mod Phy
mod Stack
mod Line
