-- ===== src/Align/Example.antt =====
-- Rounding a size that is no whole number of MiB, and a negative one.
use subiquity.Base.{◌-◌, ◌*◌, ◌≡◌, refl}
use subiquity.Base.Ints.{negsuc}
use subiquity.Align.{align_up, align_down_signed, mib}

align_up_test : align_up 5000001 mib ≡ 5 * mib
unfolding align_up
align_up_test = refl

-- -1 & ~(2 ** 20 - 1) is -(2 ** 20).
align_down_negative : align_down_signed (negsuc 0) mib ≡ negsuc (mib - 1)
unfolding align_down_signed
align_down_negative = refl
