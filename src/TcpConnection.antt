-- ===== src/TcpConnection.antt =====
-- src/TcpConnection.h and src/TcpConnection.cpp: one connection, in its loop's thread. What the kernel
-- and the owner see of it is kept beside its fields: the bytes written to the socket, the calls made,
-- in order, and the functors queued in the loop. Reads and writes take the kernel's answer as an
-- argument. A callback of the owner is noted among the calls; what it does is not modelled.
pub mod State
pub mod Send
pub mod Close
pub mod Events
pub mod Stream
pub mod Draining
pub mod Closing
pub mod Machine
pub mod Posted
mod Tests
