-- ===== src/Lib.antt =====
-- Verification of mmhashchainsigs: the rsyslog module that puts a hash chain with signatures
-- into the structured data (SD) of syslog messages, and the tool that verifies stored logs.
--
-- The parts and their files, from the repository's root:
-- * Crypto (src/common/hcs_crypto.c): Alg has the algorithms (hcs_hash_len, hcs_hash_name), Hash
--   the bytes that are hashed (uint64_to_be, hcs_hash_chain), Keys the keys, signatures and
--   fingerprints. OpenSSL and the files are the record Host of Crypto.Host, which every
--   definition that uses them takes; the records IsDigest, IsKeyPair and IsBase64 say what its
--   documentation promises.
-- * Format (src/common/hcs_format.c): Hex, Number and Codec have the encodings, Element and
--   Header the printed elements, Scan and Params the scanners, Parse hcs_parse_sd, Strip the
--   three routines that take elements out of text; the modules Room say which texts stay inside
--   the buffers, the modules Typed what fits the C types.
-- * HashChain (src/mmhashchainsigs/hashchain.c) and Signer (src/mmhashchainsigs/signer.c): a
--   chain's state and the key that signs it.
-- * Worker (src/mmhashchainsigs/mmhashchainsigs.c): State has the records, Process the messages
--   (mmhashchainsigs_process_msg, mmhashchainsigs_final_sign), StateFile the text of the state
--   file, Instance and Action the configuration and doAction. A worker calls the chain, the
--   signer and the format functions.
-- * Verifier (src/verify/verifier.c): Errors names the messages, State has verifier_ctx_t with
--   its start and end, Handlers the element types, Line verifier_process_line. Entry says what
--   an accepted line means, apart from the handlers: the step of the chain that it makes, and
--   where the key comes from (Handlers.StepsCert for a certificate).
-- * Cli (src/verify/mmhashchainsigs_verify.c): the options and the ends of main (Cli, Usage),
--   the loop over lines (Lines), the report and the exit codes (Report); Sound and Codes say
--   what an end of the program means, Total when there is one, Lines.Trace, Lines.Anchor,
--   Lines.Grows and Lines.Keeps what a log that was read does.
-- * Pipeline has a worker's lines as they are stored, read by the verifier (Step, Opening, Run),
--   a message through doAction (Action), a log with an embedded certificate (Bundle), the worker
--   that is created again with its state file (Restart), what two logs that pass share
--   (Segments, Tamper), what strict mode asks of one (Covered), a log without forged signatures
--   (Genuine), and lines of an honest worker that the verifier refuses (Refused). A worker's log
--   is a file: Cli.Lines.Split says which texts the reader splits into the lines that were
--   stored. Tests has small hosts that compute, and the theorems at concrete inputs.
--
-- A C function that changes a structure returns the new structure. -1 is none, or failed of the
-- type Res, whose third value fault is an access outside a buffer, or Outcome where the state is
-- needed. Bytes are lists of numbers. uint64_t arithmetic wraps (Base.Words).
-- What the code calls of the C library (printf of unsigned long, strtoull, sscanf) is defined in
-- Format.Number and Worker.StateFile as the C standard describes it.
--
-- Fuel: a number is printed on fuel for 20 digits, which every number below 2^64 has at most;
-- the loop of hcs_strip_all_sd has fuel for each byte of the text, of which a round reads one at
-- least. All other loops are recursion on their text or list.
--
-- Not modelled: the macros that register the module with rsyslog, the path buffer of the state
-- file, memory that is released, failures of malloc, and the scripts.
pub mod Base
pub mod Crypto
pub mod Format
pub mod HashChain
pub mod Signer
pub mod Verifier
pub mod Worker
pub mod Cli
pub mod Pipeline
pub mod Tests
