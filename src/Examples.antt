-- ===== src/Examples.antt =====
-- Small inputs: the tests, and the theorems at these inputs.
mod Passes
mod Decoding
mod Registers
mod Objects
mod Addresses
mod Lifting
mod Conversion
mod Files
mod Modules
mod Bleach
mod Values
mod Tools
