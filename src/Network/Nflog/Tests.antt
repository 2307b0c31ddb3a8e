-- ===== src/Network/Nflog/Tests.antt =====
-- A batch of one record with a packet header and a mark, on a little-endian host, and what is not a
-- record.
use micro_hosted.Prelude.{ℕ, true, false, ◌≡◌, refl, some, [], ◌∷◌, ◌++◌, arith}
use micro_hosted.Network.Address.{Bytes, ip_text}
use micro_hosted.Network.Nflog.{
  NflogPacket, split_netlink, split_loop, nl_attr, read, parse_ipv4, udp, before_nul,
}
use micro_hosted.Network.Nflog.Walk.{split_netlink_lem}
use micro_hosted.Network.Nflog.RoundTrip.{Others, others, Written, log_record, read-Written}

-- The prefix "mh", on interface 3, with a payload of three bytes.
abbrev dropped : NflogPacket
dropped = record { prefix = 109 ∷ 104 ∷ []; indev = 3; payload = some (69 ∷ 0 ∷ 7 ∷ []) }

-- With the packet header that the kernel writes first (type 1), and a mark (type 3) after the
-- bridge.
abbrev with_header : Others
with_header = record {
  first = (1, 8 ∷ 0 ∷ 2 ∷ 0 ∷ []) ∷ [];
  second = [];
  third = (3, 0 ∷ 0 ∷ 0 ∷ 5 ∷ []) ∷ [];
  last = [];
}

abbrev written : Bytes
written = log_record false 9 with_header dropped (69 ∷ 0 ∷ 7 ∷ []) ++ []

dropped-Written : Written false (dropped ∷ []) written
unfolding before_nul others nl_attr
dropped-Written =
    Written.one 9 with_header dropped (69 ∷ 0 ∷ 7 ∷ []) (omega arith)
      (
        ((omega arith, refl, refl, refl, omega arith), tt),
        tt,
        ((omega arith, refl, refl, refl, omega arith), tt),
        tt,
      )
      (omega arith) (refl, refl, omega arith, omega arith, omega arith) Written.nothing

read-Written_example : read false written ≡ dropped ∷ []
read-Written_example = read-Written false (dropped ∷ []) written dropped-Written

-- A header that says sixteen bytes, on a big-endian host.
abbrev bare : Bytes
bare = 0 ∷ 0 ∷ 0 ∷ 16 ∷ 0 ∷ 3 ∷ 0 ∷ 0 ∷ 0 ∷ 0 ∷ 0 ∷ 1 ∷ 0 ∷ 0 ∷ 0 ∷ 0 ∷ []

split_netlink_lem_example :
    split_netlink true bare ≡ record { typ = 3; seq = 1; body = [] } ∷ split_netlink true []
split_netlink_lem_example = split_netlink_lem true bare

cut_off :
    split_netlink true (0 ∷ 0 ∷ 0 ∷ 17 ∷ 0 ∷ 3 ∷ 0 ∷ 0 ∷ 0 ∷ 0 ∷ 0 ∷ 1 ∷ 0 ∷ 0 ∷ 0 ∷ 0 ∷ []) ≡ []
unfolding split_netlink split_loop
cut_off = refl

-- A UDP packet to port 53 of 8.8.8.8, and its later fragment, which names no port.
abbrev header : ℕ → Bytes
header fragment =
    69 ∷ 0 ∷ 0 ∷ 28 ∷ 0 ∷ 0 ∷ 0 ∷ fragment ∷ 64 ∷ 17 ∷ 0 ∷ 0 ∷ 172 ∷ 16 ∷ 0 ∷ 2 ∷ 8 ∷ 8 ∷ 8 ∷ 8
    ∷ 200 ∷ 1 ∷ 0 ∷ 53 ∷ []

first_fragment :
    parse_ipv4 (header 0)
    ≡ some
        (record { proto = udp; src = ip_text 2886729730; dst = ip_text 134744072; dst_port = 53 })
unfolding parse_ipv4
first_fragment = refl

later_fragment :
    parse_ipv4 (header 1)
    ≡ some (record { proto = udp; src = ip_text 2886729730; dst = ip_text 134744072; dst_port = 0 })
unfolding parse_ipv4
later_fragment = refl
