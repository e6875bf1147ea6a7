-- ===== src/Log/Tests.antt =====
-- Runs of the log writers on small messages.
use lib_sager_net_core.Common.{◌≡◌, refl, some, arith}
use lib_sager_net_core.Common.Text.{codes}
use lib_sager_net_core.Log.{
  log_warn, log_fatal, libcore, v2ray_core, panic_level, write_v2ray, fire, trim_left, trim_right,
  contains, is_prefix, priority_of,
}
use lib_sager_net_core.Log.Tagged.{warning, write_v2ray_tagged}

write_v2ray_tagged_example :
    write_v2ray (codes "2022 [Warning] no [Error]")
    ≡ record { priority = log_warn; tag = v2ray_core; text = codes "2022  no [Error]" }
unfolding trim_left trim_right contains is_prefix
write_v2ray_tagged_example =
    write_v2ray_tagged warning (codes "2022 ") (codes " no [Error]") (ground arith) (refl, refl)

fire_runs :
    fire (some (codes "out")) panic_level
    ≡ some (record { priority = log_fatal; tag = libcore; text = codes "out" })
unfolding fire priority_of
fire_runs = refl
