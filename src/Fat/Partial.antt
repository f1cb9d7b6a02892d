-- ===== src/Fat/Partial.antt =====
-- How much of a chain `fat12_read_bytes` of include/fat12.h reads.
use advanced_os.Fat.Chain.{Chain}
