-- ===== src/Xgsm.antt =====
-- xgsm.c: sending an SMS through a GSM modem on a serial line. The children hold the parts: phone
-- numbers in semi-octets, the 7-bit packing of the text, the PDU, hexadecimal text, modem replies.
pub mod Number
pub mod Pack7
pub mod Validity
pub mod Hex
pub mod Pdu
pub mod Modem
mod Tests
