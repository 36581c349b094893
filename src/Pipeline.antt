-- ===== src/Pipeline.antt =====
-- The signer and the verifier together: a worker's lines as they are stored, and the relation
-- between the two states that each line keeps.
pub mod Step
pub mod Opening
pub mod Bundle
pub mod Action
pub mod Run
pub mod Segments
pub mod Tamper
pub mod Covered
pub mod Genuine
pub mod Refused
pub mod Restart
use mmhashchainsigs.Base.{
  Bytes, List, Option, [], false, inc64, length, none, some, u64_mod, ℕ, ◌++◌, ◌<◌, ◌>>=◌, ◌∷◌, ◌≡◌,
  All,
}
use mmhashchainsigs.Cli.Lines.Split.{IsInline}
use mmhashchainsigs.Cli.Lines.{chomp}
use mmhashchainsigs.Crypto.Alg.{HashAlg, hash_len}
use mmhashchainsigs.Crypto.Host.{Host}
use mmhashchainsigs.Format.Element.Ids.{cert_prefix}
use mmhashchainsigs.Format.Scan.{find_prefix}
use mmhashchainsigs.Verifier.Line.{msg_buf_len}
use mmhashchainsigs.Verifier.State.{Verifier, processing}
use mmhashchainsigs.Worker.Process.{process_next}
use mmhashchainsigs.Worker.State.{Active, Instance}

-- A payload that the verifier can be given back: no certificate element inside, room for it in the
-- verifier's buffer, and no newline or carriage return at its end.
pub record IsStorable (payload : Bytes) : Type 0 where
  pub no_cert : find_prefix cert_prefix payload ≡ none
  pub short : length payload < msg_buf_len
  pub end_kept : chomp payload ≡ (payload, 0)
  pub some_byte : 0 < length payload

-- A payload that is stored in one line: it is storable, and no newline stands inside either.
pub record IsStored (payload : Bytes) : Type 0 where
  pub storable : IsStorable payload
  pub inline : All IsInline payload

module _ ⦃h : Host⦄ where
  -- The stored lines: each element in front of its payload (the template
  -- `%STRUCTURED-DATA%%msg%\n`); `none` where the worker emits nothing.
  unfoldable pub stored_lines : Instance → Active → List Bytes → ℕ → Option (List Bytes)
  stored_lines inst a [] room = some []
  stored_lines inst a (p ∷ ps) room =
      let (b, sd) = process_next inst a p room in
      do s ← sd; rest ← stored_lines inst b ps room; some ((s ++ (p ++ b'\n' ∷ [])) ∷ rest)

  -- The verifier has followed the worker up to here, and has recorded no error.
  pub record IsSynced (alg : HashAlg) (pk : h.Pkey) (a : Active) (v : Verifier) : Type 0 where
    pub is_open : a.is_first ≡ false
    pub alg_is : a.chain.alg ≡ alg
    pub verifier_alg : v.hash_alg ≡ alg
    pub verifier_len : v.hash_len ≡ hash_len alg
    pub same_hash : v.chain_hash ≡ a.chain.current
    pub same_seq : v.next_seq ≡ a.chain.seq
    pub same_range : inc64 v.last_signed_seq ≡ a.sig_seq_from
    pub from_small : a.sig_seq_from < u64_mod
    pub in_segment : v.state ≡ processing
    pub has_key : v.pubkey ≡ some pk
    pub no_errors : v.errors ≡ []
