-- ===== src/Network/Nflog/Walk.antt =====
-- The two walks over netlink bytes: their loops as equations, and what they read.
use micro_hosted.Prelude.{
  ℕ, zero, suc, ◌-◌, ◌≤◌, ◌<◌, min, ◌≡◌, refl, Bool, ◌||◌, [], ◌∷◌, ltb, if◌then◌else◌, length,
  take, drop, length-drop, arith, Bool-cases, inl, inr,
}
use micro_hosted.Network.Address.{Bytes}
use micro_hosted.Network.Nflog.{
  nlmsg_hdrlen, head_length, head_message, after, split_loop, split_netlink, NflogPacket,
  attr_length, attr_type, attrs_loop, read_attr, nl_align,
}

after_shorter : (l : ℕ) (b : Bytes) → 0 < l → 0 < length b → length (after l b) < length b
after_shorter l b some_length some_bytes =
    omega (arith, length-drop (min (nl_align l) (length b)) b)

-- The stops of the two loops.
abbrev pub ends_messages : Bool → Bytes → Bool
ends_messages big b =
    ltb (length b) nlmsg_hdrlen
    || (ltb (head_length big b) nlmsg_hdrlen || ltb (length b) (head_length big b))

abbrev pub ends_attrs : Bool → Bytes → Bool
ends_attrs big b =
    ltb (length b) 4 || (ltb (attr_length big b) 4 || ltb (length b) (attr_length big b))

split_fuel :
    (big : Bool) (f g : ℕ) (b : Bytes)
    → length b ≤ f
    → length b ≤ g
    → split_loop big f b ≡ split_loop big g b
unfolding split_loop
split_fuel big zero zero b hf hg = refl
split_fuel big zero (suc g) b hf hg = ground arith
split_fuel big (suc f) zero b hf hg = ground arith
split_fuel big (suc f) (suc g) b hf hg = elim (Bool-cases (ends_messages big b)) [
  | inl ends ↦ ground (arith, ends)
  | inr goes_on ↦
      let shorter =
        after_shorter (head_length big b) b (ground (arith, goes_on)) (ground (arith, goes_on)) in
      ground (
        arith,
        goes_on,
        split_fuel big f g (after (head_length big b) b) (omega (arith, hf, shorter))
            (omega (arith, hg, shorter)),
      )
]

-- The loop of splitNetlink ends on any bytes, within the fuel: it stops at a header that is cut off
-- or whose length is malformed, and otherwise takes the message there and goes on after its aligned
-- length.
pub split_netlink_lem :
    (big : Bool) (b : Bytes)
    → split_netlink big b ≡ (
        if ends_messages big b
        then []
        else (head_message big b ∷ split_netlink big (after (head_length big b) b)))
unfolding split_netlink split_loop
split_netlink_lem big [] = ground arith
split_netlink_lem big (x ∷ xs) = elim (Bool-cases (ends_messages big (x ∷ xs))) [
  | inl ends ↦ ground (arith, ends)
  | inr goes_on ↦
      let b = x ∷ xs in
      let shorter = after_shorter (head_length big b) b (ground (arith, goes_on)) (omega arith) in
      let rest = after (head_length big b) b in
      ground (
        arith,
        goes_on,
        split_fuel big (length xs) (length rest) rest (omega (arith, shorter)) (omega arith),
      )
]

attrs_fuel :
    (big : Bool) (f g : ℕ) (b : Bytes) (p : NflogPacket)
    → length b ≤ f
    → length b ≤ g
    → attrs_loop big f b p ≡ attrs_loop big g b p
unfolding attrs_loop
attrs_fuel big zero zero b p hf hg = refl
attrs_fuel big zero (suc g) b p hf hg = ground arith
attrs_fuel big (suc f) zero b p hf hg = ground arith
attrs_fuel big (suc f) (suc g) b p hf hg = elim (Bool-cases (ends_attrs big b)) [
  | inl ends ↦ ground (arith, ends)
  | inr goes_on ↦
      let l = attr_length big b in
      let shorter = after_shorter l b (ground (arith, goes_on)) (ground (arith, goes_on)) in
      let q = read_attr (attr_type big b) (take (l - 4) (drop 4 b)) p in
      ground (
        arith,
        goes_on,
        attrs_fuel big f g (after l b) q (omega (arith, hf, shorter)) (omega (arith, hg, shorter)),
      )
]

-- The attributes of a record, from what has been read.
abbrev pub attrs : Bool → Bytes → NflogPacket → NflogPacket
attrs big b p = attrs_loop big (length b) b p

pub attrs-step :
    (big : Bool) (b : Bytes) (p : NflogPacket)
    → attrs big b p ≡ (
        if ends_attrs big b
        then p
        else attrs big
            (after (attr_length big b) b)
            (read_attr (attr_type big b) (take (attr_length big b - 4) (drop 4 b)) p))
unfolding attrs_loop
attrs-step big [] p = ground arith
attrs-step big (x ∷ xs) p = elim (Bool-cases (ends_attrs big (x ∷ xs))) [
  | inl ends ↦ ground (arith, ends)
  | inr goes_on ↦
      let b = x ∷ xs in
      let l = attr_length big b in
      let shorter = after_shorter l b (ground (arith, goes_on)) (omega arith) in
      let q = read_attr (attr_type big b) (take (l - 4) (drop 4 b)) p in
      ground (
        arith,
        goes_on,
        attrs_fuel big (length xs) (length (after l b)) (after l b) q (omega (arith, shorter))
            (omega arith),
      )
]
