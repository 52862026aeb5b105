-- ===== src/Compression.antt =====
-- crates/yoop-core/src/compression/mod.rs: the algorithms, what a device offers, and the choice that
-- two devices make.
mod Examples
use yoop.Base.{
  ℕ, ◌⊎◌, inl, inr, ◌≡◌, refl, Bool, true, false, ◌&&◌, ◌||◌, Option, none, some, List, [], ◌∷◌,
  arith, ◌==◌, if◌then◌else◌,
}

pub data CompressionAlgorithm : Type 0 where
  uncompressed zstd : CompressionAlgorithm

-- `as_byte`
unfoldable pub algorithm_byte : CompressionAlgorithm → ℕ
algorithm_byte uncompressed = 0
algorithm_byte zstd = 1

-- `from_byte`
unfoldable pub algorithm_from_byte : ℕ → Option CompressionAlgorithm
algorithm_from_byte byte =
    if byte == 0 then some uncompressed else if byte == 1 then some zstd else none

pub algorithm_from_byte-algorithm_byte :
    (a : CompressionAlgorithm) → algorithm_from_byte (algorithm_byte a) ≡ some a
unfolding algorithm_from_byte algorithm_byte
algorithm_from_byte-algorithm_byte uncompressed = refl
algorithm_from_byte-algorithm_byte zstd = refl

pub algorithm_byte-algorithm_from_byte :
    (b : ℕ) (a : CompressionAlgorithm) → algorithm_from_byte b ≡ some a → algorithm_byte a ≡ b
unfolding algorithm_from_byte algorithm_byte
algorithm_byte-algorithm_from_byte b a h = ground arith

unfoldable pub same_algorithm : CompressionAlgorithm → CompressionAlgorithm → Bool
same_algorithm uncompressed uncompressed = true
same_algorithm zstd zstd = true
same_algorithm _ _ = false

pub record CompressionCapabilities : Type 0 where
  pub algorithms : List CompressionAlgorithm
  pub level : ℕ

unfoldable pub with_zstd : ℕ → CompressionCapabilities
with_zstd level = record { algorithms = zstd ∷ []; level = level }

contains : List CompressionAlgorithm → CompressionAlgorithm → Bool
unfolding same_algorithm
contains [] algo = false
contains (a ∷ rest) algo = same_algorithm a algo || contains rest algo

unfoldable pub supports : CompressionCapabilities → CompressionAlgorithm → Bool
unfolding contains
supports caps algo = contains caps.algorithms algo

unfoldable pub negotiate :
    CompressionCapabilities → CompressionCapabilities → Option CompressionAlgorithm
unfolding supports
negotiate ours theirs = if supports ours zstd && supports theirs zstd then some zstd else none
