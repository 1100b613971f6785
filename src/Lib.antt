-- ===== src/Lib.antt =====
-- A verification library for the programs of this repository, each of which is a file of its own.
-- The programs do not call one another; they share only idioms.
--
-- Prelude: lists, tests, integers and bit operations shared by all.
-- Xgsm (xgsm.c): Number (xgsm_swap_nibble, xgsm_code_number), Pack7 (xgsm_pack7), Validity
--   (xgsm_get_vt), Hex (xgsm_hexdata, xgsm_CMGS_PDU_length), Pdu (xgsm_create_PDU,
--   xgsm_create_hexPDU), Modem (xgsm_read, xgsm_flushin, xgsm_write, xgsm_eoc, xgsm_readresp,
--   xgsm_want_reply, xgsm_sendcmd, xgsm_vsendcmd, xgsm_send_txt_sms, xgsm_send_sms, main). The serial
--   line is a sequence of results for poll, read and write, and what was to be written is logged;
--   what waits for ever has no result. The loops that read have fuel for every byte and result of
--   the line. C strings are lists of bytes without the NUL, allocation is a test on the
--   size; lengths are assumed to fit an int.
-- SmartQueue (smart-queue.c): TimedRing (tr_rqinit, tr_queue, tr_dequeue, rel_ffs and the bit
--   operations). Machine words are numbers with their wrap-around written out; a slot's linked list
--   is the list of its tasks.
--   Cfs (cfs_rqinit, cfs_queue, cfs_dequeue) is the queue over the red-black tree, whose library is an
--   interface with laws: RbOps.
-- Binpatch (binpatch.c): the search and the output as loops, Main the options and exit codes. The search
--   has a round for each byte of the match at each place of the file.
-- Econv (econv.c): Address and Conversion (extract_address, the loops that write the message), Main
--   the options, the lines before the message and the exit codes. A loop has fuel for each byte of
--   the text, and a line is what fgets reads into the buffer.
-- Memiszero (memiszero.c): memiszero, memiszero_32, memiszero_loop on a memory in which a read
--   outside the block or of an unaligned word faults. The loop over the words has fuel t + 1, which
--   is more than its rounds.
-- Qspins (qspins.c): the ticket lock (tspin_lock_init, tspin_lock, tspin_unlock) and the spin lock
--   (spin_lock_init, spin_lock, spin_unlock) as atomic accesses of n interleaved threads, in program
--   order; `Queue` is the abstract ticket lock. The counters of 16 and of 32 bits bound n.
-- Thrhttp (thrhttp.c): Stream (bstream_refil, bstream_readsome, bstream_readln, bstream_printf) and
--   Server (mmap_tx, send_doc, send_mem, send_url, thproc). The connection, its outcomes and what is
--   common to both servers word for word (bstream_write, sendfile_tx, the texts, the values of header
--   lines) are taken from Thrplhttp. The loop of bstream_readln has fuel for every byte and result of
--   recv; those of thproc have fuel as a parameter, which the bytes that recv can give bound, as for
--   process_session (Thrplhttp.Connection.Budget has what the two proofs share).
-- Thrplhttp (thrplhttp.c): Sessions (queue_client_session, dequeue_client_session,
--   init_per_cpu_ctx) as a monitor. A step is what one thread does under the mutex, up to where it must
--   wait; that it begins to wait is a step of its own, and sig_int and the broadcast of main, which
--   do not take the mutex, may come between. Sleeping and woken threads are counted; a signal wakes
--   one thread, and a thread may wake up by itself. Service (service_thproc) is the loop of one
--   thread over that queue and process_session, which has a round for each byte and result of recv.
--   Stream (bstream_write), Connection (bstream_open, bstream_refil, bstream_readln, bstream_printf),
--   Http (sendfile_tx, mmap_tx, send_doc, send_mem, send_url) and Session (process_session): what recv
--   and send return is a sequence of results, and a sequence that is too short means that the call
--   waits. An operation returns, waits, reads outside its memory (faults), or ends the program (exits).
--   The loops of process_session have fuel for every byte that recv gives. atol and atoi, the files,
--   sendfile, mmap and malloc are parameters.
-- Sload (sload.c): jval over the generator myrand, and the loop of a child, with the clock as a sequence
--   of pairs; Options is what main makes of the options. ilog2 has fuel 64, for each bit of a word.
-- Splitmb (splitmb.c): Address (is_rfc822_atext to is_valid_addr_spec) on the list of the characters
--   between a pointer and its end, Mailbox (is_split_msg and the loop of main). sscanf and the
--   success of fopen are parameters.
-- Nma2n (nma2n.c): find_symbol over the lines of a symbol table. strtoull is a parameter.
--
-- Not modelled: printing and usage texts, signals, termios, the benchmark loops and the tests of
-- kernel interfaces, the scripts.
pub mod Binpatch
pub mod Econv
pub mod Memiszero
pub mod Nma2n
pub mod Prelude
pub mod Qspins
pub mod Sload
pub mod SmartQueue
pub mod Splitmb
pub mod Thrhttp
pub mod Thrplhttp
pub mod Xgsm
