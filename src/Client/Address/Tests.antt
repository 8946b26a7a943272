-- ===== src/Client/Address/Tests.antt =====
-- Addresses on examples, those of internal/client/client_test.go among them.
use selftunnel.Common.{codes, ◌≡◌, refl, text_beq}
use selftunnel.Text.{
  has_prefix, has_suffix, trim_suffix, trim_space, trim_left, trim_right, cut_prefix, cut_suffix,
  is_space,
}
use selftunnel.Client.Address.{normalize_server}

normalized :
    normalize_server (codes " https://relay.example.com/ ")
    ≡ codes "wss://relay.example.com/ws/tunnel"
unfolding normalize_server trim_space trim_left trim_right is_space has_prefix has_suffix
    trim_suffix cut_prefix cut_suffix text_beq
normalized = refl

bare_host : normalize_server (codes "relay.example.com") ≡ codes "wss://relay.example.com/ws/tunnel"
unfolding normalize_server trim_space trim_left trim_right is_space has_prefix has_suffix
    trim_suffix cut_prefix cut_suffix text_beq
bare_host = refl
