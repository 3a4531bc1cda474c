-- ===== src/Proc.antt =====
-- src/proc: what the threads of the inputs and of the output do with each packet.
pub mod Packet
pub mod Extractor
pub mod Injector
pub mod RoundTrip
pub mod Controller
pub mod Relay
pub mod Restart
