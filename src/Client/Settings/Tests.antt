-- ===== src/Client/Settings/Tests.antt =====
-- The configuration on examples.
use selftunnel.Common.{true, codes, ◌≡◌}
use selftunnel.Client.Connection.{Config}
use selftunnel.Client.Settings.{
  absent, holds, malformed, Disk, write_fails, save_config, empty_config,
}
use selftunnel.Client.Settings.Laws.{save_config-Kept}

abbrev named : Config
named = record empty_config { server = codes "wss://r.example/ws/tunnel" }

abbrev disk : Disk
disk = record { config = holds empty_config; tmp = absent }

save_config-Kept_example :
    (save_config true (write_fails malformed) true named disk).1.config ≡ holds empty_config
unfolding save_config
save_config-Kept_example = save_config-Kept true (write_fails malformed) true named disk
