-- ===== src/Cfg/Admin/Keys.antt =====
-- The keys of the version in force, of the one that waits and of former ones never meet.
use micro_conf.Text.Bytes.{Bytes}
use micro_conf.Base.{arith, sym, ◌≢◌}
use micro_conf.App.Info.{app_config_key}
use micro_conf.Cfg.Admin.{history_key, history_scan_key, unreleased_key}

pub future_ne_current : (a g n b h m : Bytes) → unreleased_key a g n ≢ app_config_key b h m
unfolding unreleased_key app_config_key
future_ne_current a g n b h m e = ground arith

pub current_ne_future : (a g n b h m : Bytes) → app_config_key a g n ≢ unreleased_key b h m
current_ne_future a g n b h m e = future_ne_current b h m a g n (sym e)

pub current_ne_history : (a g n b h m time : Bytes) → app_config_key a g n ≢ history_key b h m time
unfolding app_config_key history_key history_scan_key
current_ne_history a g n b h m time e = ground arith

pub future_ne_history : (a g n b h m time : Bytes) → unreleased_key a g n ≢ history_key b h m time
unfolding unreleased_key history_key history_scan_key
future_ne_history a g n b h m time e = ground arith
