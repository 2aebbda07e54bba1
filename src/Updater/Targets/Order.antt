-- ===== src/Updater/Targets/Order.antt =====
-- internal/application/updater/service.go: the order of targets in `normalizeManifestTargets`.
use image_updater.Prelude.{◌≡◌, true, false, arith, IsOrder}
use image_updater.Text.{text_eq, text_eq_iff}
use image_updater.Text.Order.{text_lt, text_lt_asym, text_lt_total, text_lt-IsOrder}
use image_updater.Updater.Types.{ManifestTarget}
use image_updater.Updater.Targets.{target_lt}

target_lt_asym : (a b : ManifestTarget) → target_lt a b ≡ true → target_lt b a ≡ false
unfolding target_lt
target_lt_asym a b h = ground (
  arith,
  text_eq_iff a.location.dir b.location.dir,
  text_eq_iff b.location.dir a.location.dir,
  text_lt_asym a.location.dir b.location.dir,
  text_lt_asym a.env b.env,
)

target_lt_trans :
    (a b c : ManifestTarget) → target_lt b a ≡ false → target_lt c b ≡ false → target_lt c a ≡ false
unfolding target_lt
target_lt_trans a b c h k = ground (
  arith,
  text_eq_iff b.location.dir a.location.dir,
  text_eq_iff c.location.dir b.location.dir,
  text_eq_iff c.location.dir a.location.dir,
  text_lt_total a.location.dir b.location.dir,
  text_lt-IsOrder.trans a.location.dir b.location.dir c.location.dir,
  text_lt-IsOrder.trans a.env b.env c.env,
)

pub target_lt-IsOrder : IsOrder target_lt
target_lt-IsOrder = record { asym = target_lt_asym; trans = target_lt_trans }

-- Of two targets in order with different directories, the first has the lower one.
pub dir_lt :
    (a b : ManifestTarget)
    → target_lt b a ≡ false
    → text_eq a.location.dir b.location.dir ≡ false
    → text_lt a.location.dir b.location.dir ≡ true
unfolding target_lt
dir_lt a b h k = ground (
  arith,
  text_eq_iff b.location.dir a.location.dir,
  text_eq_iff a.location.dir b.location.dir,
  text_lt_total a.location.dir b.location.dir,
)

-- A directory below that of a target is below that of every later target.
pub dir_lt_later :
    (a b c : ManifestTarget)
    → text_lt a.location.dir b.location.dir ≡ true
    → target_lt c b ≡ false
    → text_lt a.location.dir c.location.dir ≡ true
unfolding target_lt
dir_lt_later a b c h k = ground (
  arith,
  text_eq_iff c.location.dir b.location.dir,
  text_lt-IsOrder.trans b.location.dir c.location.dir a.location.dir,
)
