-- ===== src/Tests/Actions.antt =====
-- A message through `doAction`.
use mmhashchainsigs.Base.{
  Bytes, arith, bytes_eq, codes, none, refl, some, strip_prefix, ◌++◌, ◌≡◌, ◌∷◌, inc64,
}
use mmhashchainsigs.Cli.Lines.{chomp, file_lines, run_lines}
use mmhashchainsigs.Crypto.Alg.{sha256}
use mmhashchainsigs.Format.Element.Ids.{cert_prefix, hdr_prefix}
use mmhashchainsigs.Format.Header.{escape_param, format_sd_hdr}
use mmhashchainsigs.Format.Number.{digits, print_ulong}
use mmhashchainsigs.Format.Scan.{find_prefix}
use mmhashchainsigs.Pipeline.{IsStorable, IsSynced}
use mmhashchainsigs.Pipeline.Action.{do_action-accepted}
use mmhashchainsigs.Pipeline.Restart.Resume.{running}
use mmhashchainsigs.Tests.Logs.{small_instance}
use mmhashchainsigs.Tests.Passing.{read_verifier}
use mmhashchainsigs.Tests.Restarts.{one_behind, one_behind-IsSynced}
use mmhashchainsigs.Tests.Toy.{toy, toy_sign}
use mmhashchainsigs.Tests.ToyLaws.{toy-IsBase64, toy-IsDigest, toy-IsKeyPair, toy-IsUnbroken}
use mmhashchainsigs.Verifier.State.{Verifier}
use mmhashchainsigs.Worker.Action.{SyslogMsg, cleaned_sd, do_action}
use mmhashchainsigs.Worker.State.{Active}

abbrev some_message : SyslogMsg
some_message = record {
  header = record {
    pri = 13;
    ts = none;
    host = some (codes "h");
    app = none;
    procid = none;
    msgid = none;
  };
  body = codes "one";
  structured_data = some (codes "-");
}

-- The header element; the client's section is a lone dash.
abbrev some_cleaned : Bytes
some_cleaned =
    codes
      "[mmhashchainsigs-hdr@32473 pri=\"13\" ts=\"-\" host=\"h\" app=\"\" procid=\"\" msgid=\"-\"]"

some_cleaned_lem : cleaned_sd some_message ≡ some some_cleaned
unfolding cleaned_sd format_sd_hdr escape_param hdr_prefix print_ulong digits bytes_eq
some_cleaned_lem = refl

some_payload-IsStorable : IsStorable (some_cleaned ++ codes "one")
unfolding find_prefix cert_prefix strip_prefix chomp
some_payload-IsStorable = record {
  no_cert = refl;
  short = omega arith;
  end_kept = refl;
  some_byte = omega arith;
}

do_action-accepted_example :
    (b : Active ⦃h = toy⦄) × (sd : Bytes) × (w : Verifier ⦃h = toy⦄) × (do_action
        (running small_instance none one_behind)
        some_message
      ≡ (running small_instance none b, some sd))
    × ((rest : Bytes)
        → run_lines read_verifier (file_lines (sd ++ (codes "one" ++ b'\n' ∷ rest))) 2
          ≡ run_lines w (file_lines rest) (inc64 2))
    × IsSynced sha256 tt b w
do_action-accepted_example =
    do_action-accepted toy-IsDigest toy-IsBase64 small_instance sha256 tt toy-IsUnbroken toy_sign
      none one_behind read_verifier some_message some_cleaned 2 one_behind-IsSynced toy-IsKeyPair
      (omega arith) some_cleaned_lem
      (record { storable = some_payload-IsStorable; inline = omega arith })
