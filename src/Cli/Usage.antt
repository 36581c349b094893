-- ===== src/Cli/Usage.antt =====
-- The texts that `main` writes to the standard error stream before a log is read.
use mmhashchainsigs.Base.{Bytes, codes, ◌++◌}

-- `usage`, with `argv[0]`.
unfoldable pub usage : Bytes → Bytes
usage prog =
    codes "Usage: "
    ++ prog
    ++ codes " (-k <pubkey.pem> | -c <cert.pem> | -C <ca.pem>) [OPTIONS] <logfile>\n\n"
    ++ codes "Trust anchor (exactly one is required):\n"
    ++ codes "  -k, --publickey <path>  Raw PEM public key (Ed25519 or ECDSA P-256)\n"
    ++ codes "  -c, --cert <path>       Pinned X.509 leaf certificate PEM\n"
    ++ codes "  -C, --ca-bundle <path>  PEM bundle of CA certificates; the signer's cert\n"
    ++ codes "                          must be embedded in the log and chain to a CA\n"
    ++ codes "      --crl-file <path>   Optional CRL file (only with --ca-bundle)\n\n"
    ++ codes "Options:\n"
    ++ codes "  -v, --verbose           Print per-block verification details\n"
    ++ codes "  -q, --quiet             Only output final pass/fail\n"
    ++ codes "  -s, --strict            Fail if file does not end with a signature\n"
    ++ codes "  -h, --help              Show this help\n"

unfoldable pub anchor_error : Bytes
anchor_error = codes "Error: exactly one of --publickey, --cert, or --ca-bundle is required\n"

unfoldable pub crl_error : Bytes
crl_error = codes "Error: --crl-file requires --ca-bundle\n"

unfoldable pub path_error : Bytes
path_error = codes "Error: log file path required\n"

unfoldable pub init_error : Bytes
init_error = codes "Error: failed to initialize verifier (check key/cert paths and formats)\n"

-- With the path and `strerror(errno)`.
unfoldable pub open_error : Bytes → Bytes → Bytes
open_error path why = codes "Error: cannot open " ++ path ++ codes ": " ++ why ++ codes "\n"
