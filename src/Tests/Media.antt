-- ===== src/Tests/Media.antt =====
-- Paths of media files.
use fediway.Prelude.{◌≡◌, refl, false, some, none}
use fediway.Prelude.Decimal.{to_string}
use fediway.Prelude.Signed.{codes}
use fediway.Common.Paperclip.{MediaConfig, id_partition, avatar_url}

program : Unit {0}
unfolding id_partition avatar_url to_string
program = tt

short_run : id_partition 12345 ≡ codes "000/012/345"
unfolding program
short_run = refl

long_run : id_partition 114782619229607682 ≡ codes "114/782/619/229/607/682"
unfolding program
long_run = refl

abbrev local_files : MediaConfig
local_files = record { host = codes "a.com"; s3_enabled = false }

avatar_run :
    avatar_url local_files 42 (some (codes "abc.jpg")) none false
    ≡ codes "https://a.com/system/accounts/avatars/000/000/042/original/abc.jpg"
unfolding program
avatar_run = refl
