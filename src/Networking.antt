-- ===== src/Networking.antt =====
-- Source/networking.cpp: what the library asks the system about its network.
mod Tests
pub mod Netlink
pub mod Local
pub mod Held
pub mod Room
pub mod Routes
pub mod Balance
pub mod Picked
pub mod Interfaces
pub mod Listing
pub mod Returned
pub mod Masks
pub mod Texts
pub mod Readback
