-- ===== src/Network/Nflog/RoundTrip.antt =====
-- Records, written and read again (internal/network/nflog.go).
use micro_hosted.Prelude.{
  ℕ, ◌+◌, ◌%◌, ◌<◌, ◌≡◌, refl, ap, ◌∙◌, sym, Bool, true, false, Option, some, List, [], ◌∷◌, All,
  ◌==◌, ◌++◌, length, length-append, append_assoc, arith,
}
use micro_hosted.Network.Address.{Bytes}
use micro_hosted.Network.Nflog.{
  split_netlink, split_loop, NflogPacket, attrs_loop, read_attr, nl_attr, nfnl_message, put32,
  before_nul, parse_nflog_packet, packets_of, read, packet_type, nfula_prefix, nfula_payload,
  nfula_ifindex_indev, no_packet,
}
use micro_hosted.Network.Nflog.Walk.{attrs}
use micro_hosted.Network.Nflog.Messages.{
  native32-put32, attrs-nl_attr, length-nl_attr, split_netlink-nfnl_message,
}

-- How the kernel writes a record: a packet message with, among other attributes that the reader
-- passes over (the packet header, the mark, the hardware address and so on), a prefix, which ends
-- in NUL, a bridge and a payload.
abbrev pub Loggable : NflogPacket → Bytes → Type 0
Loggable p payload =
    (before_nul (p.prefix ++ (0 ∷ [])) ≡ p.prefix)
    × (p.payload ≡ some payload)
    × (p.indev < 4294967296)
    × (length p.prefix < 32768)
    × (length payload < 32768)

abbrev pub IsOther : ℕ × Bytes → Type 0
IsOther (typ, v) =
    (typ < 65536)
    × ((typ % 16384 == nfula_prefix) ≡ false)
    × ((typ % 16384 == nfula_ifindex_indev) ≡ false)
    × ((typ % 16384 == nfula_payload) ≡ false)
    × (length v < 32768)

unfoldable pub others : Bool → List (ℕ × Bytes) → Bytes
others big [] = []
others big ((typ, v) ∷ more) = nl_attr big typ v ++ others big more

-- The other attributes of a record: before the prefix, before the bridge, before the payload, and
-- after it.
pub record Others : Type 0 where
  pub first : List (ℕ × Bytes)
  pub second : List (ℕ × Bytes)
  pub third : List (ℕ × Bytes)
  pub last : List (ℕ × Bytes)

abbrev pub AreOthers : Others → Type 0
AreOthers o = All IsOther o.first × All IsOther o.second × All IsOther o.third × All IsOther o.last

abbrev pub record_attrs : Bool → Others → NflogPacket → Bytes → Bytes
record_attrs big o p payload =
    others big o.first
    ++ (nl_attr big 10 (p.prefix ++ (0 ∷ []))
        ++ (others big o.second
            ++ (nl_attr big 4 (put32 true p.indev)
                ++ (others big o.third ++ (nl_attr big 9 payload ++ (others big o.last ++ []))))))

abbrev pub log_record : Bool → ℕ → Others → NflogPacket → Bytes → Bytes
log_record big seq o p payload =
    nfnl_message big packet_type 0 seq 2 0 (record_attrs big o p payload)

attrs-others :
    (big : Bool) (os : List (ℕ × Bytes)) (rest : Bytes) (p : NflogPacket)
    → All IsOther os
    → attrs big (others big os ++ rest) p ≡ attrs big rest p
unfolding others read_attr
attrs-others big [] rest p passed = refl
attrs-others big ((typ, v) ∷ os) rest p ((word, prefix, indev, payload, short), passed) =
    ap (λ b. attrs big b p) (append_assoc (nl_attr big typ v) (others big os) rest)
    ∙ attrs-nl_attr big typ v (others big os ++ rest) p word (omega (arith, short))
    ∙ ap (attrs big (others big os ++ rest)) (ground (arith, prefix, indev, payload))
    ∙ attrs-others big os rest p passed

packet_eq :
    {prefix prefix' : Bytes} {indev indev' : ℕ} {payload payload' : Option Bytes}
    → prefix ≡ prefix'
    → indev ≡ indev'
    → payload ≡ payload'
    → ◌≡◌ {A = NflogPacket}
        (record { prefix = prefix; indev = indev; payload = payload })
        (record { prefix = prefix'; indev = indev'; payload = payload' })
packet_eq h k l = cc

attrs-record_attrs :
    (big : Bool) (o : Others) (p : NflogPacket) (payload : Bytes)
    → AreOthers o
    → Loggable p payload
    → attrs big (record_attrs big o p payload) no_packet ≡ p
unfolding read_attr attrs_loop
attrs-record_attrs big o p payload (first, second, third, last) well =
    attrs-others big o.first _ no_packet first
    ∙ attrs-nl_attr big 10 (p.prefix ++ (0 ∷ [])) _ _ (omega arith)
        (omega (arith, well, length-append p.prefix (0 ∷ [])))
    ∙ attrs-others big o.second _ _ second
    ∙ attrs-nl_attr big 4 (put32 true p.indev) _ _ (omega arith) (omega arith)
    ∙ attrs-others big o.third _ _ third
    ∙ attrs-nl_attr big 9 payload _ _ (omega arith) (omega (arith, well))
    ∙ attrs-others big o.last [] _ last
    ∙ packet_eq (well.0) (native32-put32 true p.indev [] (omega (arith, well))) (sym well.1)

aligned_append : (a b : Bytes) → length a % 4 ≡ 0 → length b % 4 ≡ 0 → length (a ++ b) % 4 ≡ 0
aligned_append a b h k = omega (arith, h, k, length-append a b)

nl_attr-aligned : (big : Bool) (typ : ℕ) (v : Bytes) → length (nl_attr big typ v) % 4 ≡ 0
nl_attr-aligned big typ v = omega (arith, length-nl_attr big typ v)

others-aligned : (big : Bool) (os : List (ℕ × Bytes)) → length (others big os) % 4 ≡ 0
unfolding others
others-aligned big [] = refl
others-aligned big ((typ, v) ∷ os) =
    aligned_append (nl_attr big typ v) (others big os) (nl_attr-aligned big typ v)
      (others-aligned big os)

record_attrs-aligned :
    (big : Bool) (o : Others) (p : NflogPacket) (payload : Bytes)
    → length (record_attrs big o p payload) % 4 ≡ 0
record_attrs-aligned big o p payload = aligned_append _ _ (others-aligned big o.first) (
    aligned_append _ _ (nl_attr-aligned big 10 (p.prefix ++ (0 ∷ []))) (
      aligned_append _ _ (others-aligned big o.second) (
        aligned_append _ _ (nl_attr-aligned big 4 (put32 true p.indev)) (
          aligned_append _ _ (others-aligned big o.third) (
            aligned_append _ _ (nl_attr-aligned big 9 payload)
              (aligned_append (others big o.last) [] (others-aligned big o.last) refl))))))

parse_nflog_packet-record_attrs :
    (big : Bool) (o : Others) (p : NflogPacket) (payload : Bytes)
    → AreOthers o
    → Loggable p payload
    → parse_nflog_packet big (2 ∷ 0 ∷ 0 ∷ 0 ∷ record_attrs big o p payload) ≡ some p
unfolding parse_nflog_packet
parse_nflog_packet-record_attrs big o p payload rest well =
    ground (arith, attrs-record_attrs big o p payload rest well, well)

pub data Written (big : Bool) : List NflogPacket → Bytes → Type 0 where
  nothing : Written big [] []
  one :
      (seq : ℕ) (o : Others) (p : NflogPacket) (payload : Bytes) {ps : List NflogPacket}
      {bytes : Bytes}
      → seq < 4294967296
      → AreOthers o
      → 20 + length (record_attrs big o p payload) < 4294967296
      → Loggable p payload
      → Written big ps bytes
      → Written big (p ∷ ps) (log_record big seq o p payload ++ bytes)

-- Packets that are written one record after the other are read back as these packets, whatever
-- their number, on a little and on a big endian host: every prefix without a NUL and every payload,
-- each shorter than 32,768 bytes, every bridge index of 32 bits, and any other attributes shorter
-- than that before, between and after them, in a message whose length is of 32 bits.
pub read-Written :
    (big : Bool) (packets : List NflogPacket) (bytes : Bytes)
    → Written big packets bytes
    → read big bytes ≡ packets
unfolding read packets_of split_netlink split_loop
read-Written big _ _ nothing = refl
read-Written big _ _ (one seq o p payload {ps} {bytes} h rest fits well w) =
    ap (packets_of big) (
      split_netlink-nfnl_message big packet_type 0 seq 2 0 (record_attrs big o p payload) bytes
        (omega arith) h (record_attrs-aligned big o p payload) fits)
    ∙ ground (
      arith,
      parse_nflog_packet-record_attrs big o p payload rest well,
      read-Written big ps bytes w,
    )
