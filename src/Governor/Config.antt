-- ===== src/Governor/Config.antt =====
-- pkg/node/target_dial_governor.go: NewTargetDialGovernor and BuildTargetDialGovernor.
use iran_germany_split_tunne.Common.{
  ℕ, ◌*◌, Bool, not, ◌&&◌, ◌||◌, Option, none, some, [], ltb, ◌==◌, if◌then◌else◌,
}
use iran_germany_split_tunne.Backoff.{millisecond}
use iran_germany_split_tunne.Governor.{Governor}

pub record GovernorConfig : Type 0 where
  pub bounded_timeout : ℕ
  pub breaker_enabled : Bool
  pub failure_window : ℕ
  pub failure_threshold : ℕ
  pub cooldown : ℕ
  pub backoff_enabled : Bool
  pub backoff_base : ℕ
  pub backoff_max : ℕ
  pub max_targets : ℕ

abbrev pub second : ℕ
second = 1000 * millisecond

or_default : ℕ → ℕ → ℕ
or_default default n = if n == 0 then default else n

unfoldable pub new_target_dial_governor : GovernorConfig → Governor
unfolding or_default
new_target_dial_governor cfg =
    let base = or_default (500 * millisecond) cfg.backoff_base in
    record {
      bound = cfg.bounded_timeout;
      breaker_enabled = cfg.breaker_enabled;
      window = or_default (60 * second) cfg.failure_window;
      threshold = or_default 5 cfg.failure_threshold;
      cooldown = or_default (30 * second) cfg.cooldown;
      backoff_enabled = cfg.backoff_enabled;
      boff_base = base;
      boff_max =
          if cfg.backoff_max == 0 || ltb cfg.backoff_max base then 30 * second else cfg.backoff_max;
      max_targets = or_default 1024 cfg.max_targets;
      entries = [];
      order = [];
    }

unfoldable pub build_target_dial_governor : GovernorConfig → Option Governor
unfolding new_target_dial_governor
build_target_dial_governor gc =
    if not gc.breaker_enabled && (not gc.backoff_enabled && gc.bounded_timeout == 0)
    then none
    else some (new_target_dial_governor gc)
