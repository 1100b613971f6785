-- ===== src/Xgsm/Modem.antt =====
-- xgsm.c: the dialogue with the modem on the serial line. `Line` is what the line does and was sent;
-- the operations are xgsm_read, xgsm_flushin, xgsm_write, xgsm_eoc, xgsm_readresp, xgsm_sendcmd,
-- xgsm_want_reply, xgsm_send_sms and xgsm_send_txt_sms.
pub mod Line
pub mod Reply
pub mod Send
pub mod Main
pub mod Transcript
pub mod Dialogue
pub mod Final
pub mod Offers
pub mod WantReply
pub mod Exchange
mod Tests
