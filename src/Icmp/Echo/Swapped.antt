-- ===== src/Icmp/Echo/Swapped.antt =====
-- nat/icmp.go, gvisor/icmp.go: a header whose addresses are swapped.
use lib_sager_net_core.Common.{◌≡◌, ◌∙◌, ap}
use lib_sager_net_core.Icmp.{IpFields, IpHeaders, IcmpMessages}
use lib_sager_net_core.Icmp.Echo.{swapped}

module _ (ip : IpHeaders) (icmp : IcmpMessages) where
  open ip use {Header, fields, set_source}

  pub fields-swapped :
      (h : Header)
      → fields (swapped ip icmp h)
        ≡ record (fields h) { source = (fields h).destination; destination = (fields h).source }
  unfolding swapped
  fields-swapped h =
      ip.fields-set_destination (fields h).source (set_source (fields h).destination h)
      ∙ ap (λ (f : IpFields). record f { destination = (fields h).source })
          (ip.fields-set_source (fields h).destination h)
