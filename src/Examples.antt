-- ===== src/Examples.antt =====
-- The theorems at concrete inputs, and runs of the code: a sprayer with two sections.
mod Bus
mod Wire
mod Stored
mod Logged
mod Packets
mod Terminal
mod Program
mod Circuit
mod Claims
mod Cyclic
