-- ===== src/Splitmb.antt =====
-- splitmb.c: cuts a mailbox into a file for each message. `Address` is the test of the address in a
-- "From " line, `Mailbox` the loop over the lines.
pub mod Address
pub mod Mailbox
mod Tests
