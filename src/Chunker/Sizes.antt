-- ===== src/Chunker/Sizes.antt =====
-- internal/chunker/chunker.go: the size bounds and their validation.
use vestige.Prelude.{◌-◌, ◌*◌, bit_and, ℤ, pos, pos_part, ltb_ℤ, not, ◌||◌, nat_eq}
use vestige.Errors.{Result, fail_if, ◌>>◌}

pub record Config : Type 0 where
  pub window : ℤ
  pub min_size : ℤ
  pub target_size : ℤ
  pub max_size : ℤ

abbrev pub default_config : Config
default_config = record {
  window = pos 64;
  min_size = pos (512 * 1024);
  target_size = pos (2 * 1024 * 1024);
  max_size = pos (8 * 1024 * 1024);
}

-- After the first test the target is at least 1, and the second reads it as a number.
unfoldable pub validate : Config → Result (Unit {0})
validate c = do
  fail_if
      (ltb_ℤ c.window (pos 1)
        || ltb_ℤ c.min_size (pos 1)
        || ltb_ℤ c.target_size c.min_size
        || ltb_ℤ c.max_size c.target_size)
      "invalid chunking sizes"
  let target = pos_part c.target_size
  fail_if (not (nat_eq (bit_and target (target - 1)) 0)) "target chunk size must be a power of two"
