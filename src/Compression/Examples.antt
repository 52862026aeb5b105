-- ===== src/Compression/Examples.antt =====
-- Tests of compression/mod.rs.
use yoop.Base.{◌≡◌, refl, some, []}
use yoop.Compression.{CompressionCapabilities, zstd, with_zstd, negotiate}

abbrev silent : CompressionCapabilities
silent = record { algorithms = []; level = 0 }

test_both : negotiate (with_zstd 1) (with_zstd 3) ≡ some zstd
unfolding negotiate with_zstd
test_both = refl
