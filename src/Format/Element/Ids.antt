-- ===== src/Format/Element/Ids.antt =====
-- The SD-IDs of hcs_format.h, and what the source builds by `"[" HCS_SD_ID " "` and
-- `snprintf(prefix, sizeof(prefix), "[%s ", sd_id)`.
use mmhashchainsigs.Base.{Bytes, [], codes, ◌++◌, ◌∷◌}

unfoldable pub sd_id : Bytes
sd_id = codes "mmhashchainsigs@32473"

unfoldable pub sd_hdr_id : Bytes
sd_hdr_id = codes "mmhashchainsigs-hdr@32473"

unfoldable pub sd_cert_id : Bytes
sd_cert_id = codes "mmhashchainsigs-cert@32473"

unfoldable pub prefix_of : Bytes → Bytes
prefix_of id = b'[' ∷ (id ++ b' ' ∷ [])

unfoldable pub sd_prefix : Bytes
unfolding prefix_of sd_id
sd_prefix = prefix_of sd_id

unfoldable pub hdr_prefix : Bytes
unfolding prefix_of sd_hdr_id
hdr_prefix = prefix_of sd_hdr_id

unfoldable pub cert_prefix : Bytes
unfolding prefix_of sd_cert_id
cert_prefix = prefix_of sd_cert_id
