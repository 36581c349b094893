-- ===== src/Worker/Action.antt =====
-- `doAction`: from a parsed message to its new structured data.
use mmhashchainsigs.Base.{
  Bytes, Option, [], bytes_eq, codes, if◌then◌else◌, length, none, some, ℕ, ◌++◌, ◌+◌, ◌>>=◌, ◌∷◌,
}
use mmhashchainsigs.Crypto.Host.{Host}
use mmhashchainsigs.Format.Element.Ids.{sd_hdr_id, sd_id}
use mmhashchainsigs.Format.Header.{HeaderFields, format_sd_hdr}
use mmhashchainsigs.Format.Strip.{strip_all_sd}
use mmhashchainsigs.Worker.Process.{process_msg}
use mmhashchainsigs.Worker.State.{Worker}

-- The six header fields, `%msg%` and `%STRUCTURED-DATA%` as rsyslog gives them.
pub record SyslogMsg : Type 0 where
  pub header : HeaderFields
  pub body : Bytes
  pub structured_data : Option Bytes

-- A null time stamp is written as a dash.
abbrev with_ts : HeaderFields → HeaderFields
with_ts f = record f { ts = elim f.ts [ none ↦ some (codes "-") | some t ↦ some t ] }

-- `get_msgid_str`: a dash for a message without an ID.
abbrev with_msgid : HeaderFields → HeaderFields
with_msgid f = record f { msgid = elim f.msgid [ none ↦ some (codes "-") | some t ↦ some t ] }

-- The section to clean; a lone dash stands for none.
client_sd : Option Bytes → Bytes
client_sd none = []
client_sd (some s) = if bytes_eq s (codes "-") then [] else s

-- Both of our own SD-IDs are removed from the client's section.
strip_client : Bytes → Option Bytes
strip_client [] = some []
strip_client (c ∷ cs) = do
  (once, _) ← strip_all_sd (c ∷ cs) sd_id (length (c ∷ cs) + 1)
  (twice, _) ← strip_all_sd once sd_hdr_id (length (c ∷ cs) + 1)
  some twice

-- `hdr_SD || cleaned_client_SD`
unfoldable pub cleaned_sd : SyslogMsg → Option Bytes
unfolding client_sd strip_client
cleaned_sd m = do
  hdr ← format_sd_hdr (with_msgid (with_ts m.header)) 1024
  client ← strip_client (client_sd m.structured_data)
  some (hdr ++ client)

-- `HCS_SD_WITH_CERT_MAX_LEN`
abbrev pub sd_room : ℕ
sd_room = 3584

module _ ⦃h : Host⦄ where
  unfoldable pub with_sd : Worker × Option Bytes → Bytes → Worker × Option Bytes
  with_sd (w, none) cleaned = (w, none)
  with_sd (w, some sd) cleaned = (w, some (sd ++ cleaned))

  unfoldable pub act : Worker → SyslogMsg → Option Bytes → Worker × Option Bytes
  unfolding with_sd
  act w m none = (w, none)
  act w m (some cleaned) = with_sd (process_msg w (cleaned ++ m.body) sd_room) cleaned

  -- The new section that is set on the message; `none` for a suspended action, which leaves the
  -- message as it is. `malloc` is taken to succeed.
  unfoldable pub do_action : Worker → SyslogMsg → Worker × Option Bytes
  unfolding act
  do_action w m = act w m (cleaned_sd m)
