-- ===== src/Tests.antt =====
-- A concrete choice of boost's conversions, and the theorems at concrete inputs.
mod Conversions
mod Texts
mod Trees
mod Nodes
mod Logins
mod Stakes
mod Calls
mod Wires
mod LastUsed
mod Exchange
mod Devices
mod Objects
mod Disks
mod Accounts
mod Stores
mod Signers
mod Servers
mod Batches
mod Fees
mod Mnemonics
mod Origins
mod Payments
