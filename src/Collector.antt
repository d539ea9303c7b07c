-- ===== src/Collector.antt =====
-- flowd/flowd.c: the collector between the packets that it receives and the log that it keeps.
pub mod Output
pub mod Enqueue
pub mod Logsock
pub mod Template
pub mod Checked
pub mod Flowset
pub mod Record
pub mod Nf9
pub mod Safe
pub mod Arrives
pub mod Step
pub mod Packet
pub mod Fixed
pub mod Ordered
pub mod Dispatch
pub mod Input
pub mod Receive
pub mod Monitor
pub mod Received
pub mod Stored
