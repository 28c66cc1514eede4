-- ===== src/Analyzer/Tests/Announcements.antt =====
-- mDNS and SSDP at concrete packets.
use asset_discovery.Analyzer.PacketCtx.{Dns, PacketCtx}
use asset_discovery.Analyzer.Ssdp.{lines_from, ssdp_analyze_ctx, trim_line}
use asset_discovery.Analyzer.Ssdp.Colons.{colon_first}
use asset_discovery.Analyzer.Ssdp.Laws.{OnlyHost, ssdp_colons_unread}
use asset_discovery.Analyzer.Tests.Packets.{arp_ctx, no_url}
use asset_discovery.Prelude.{All, [], inr, none, refl, some, true, ◌++◌, ◌∷◌}
use asset_discovery.Prelude.Text.{is_empty, text}

-- A host name, twice, and a service.
abbrev printer : Dns
printer = record {
  qr = true;
  answers =
      record { record_type = 12; ptr = text "Printer.local."; srv_port = 0; srv_name = [] }
      ∷ record { record_type = 12; ptr = text "printer"; srv_port = 0; srv_name = [] }
      ∷ record { record_type = 33; ptr = []; srv_port = 631; srv_name = text "_ipp._tcp.local" }
      ∷ [];
}

abbrev notify_ctx : PacketCtx
notify_ctx = record arp_ctx {
  arp = none;
  udp = some (record {
    src_port = 1900;
    dst_port = 1900;
    payload =
        text "NOTIFY * HTTP/1.1" ++ 13 ∷ 10 ∷ text "SERVER: Linux/5.10 UPnP/1.0" ++ 13 ∷ 10 ∷ [];
  });
}

ssdp_colons_unread_example : All OnlyHost (ssdp_analyze_ctx no_url 0 notify_ctx)
unfolding lines_from trim_line colon_first is_empty
ssdp_colons_unread_example = ssdp_colons_unread no_url 0 notify_ctx (inr refl, tt)
