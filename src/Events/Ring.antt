-- ===== src/Events/Ring.antt =====
-- The ring and the log of all that was published.
use micro_hosted.Prelude.{
  ℕ, zero, suc, ◌+◌, ◌-◌, ◌^◌, ◌≤◌, ◌<◌, ◌≡◌, refl, subst, ap, sym, ◌∙◌, List, [], ◌∷◌, ◌++◌,
  String, arith, length, drop, length-append, length-drop, drop-append_left, Bool-cases, inl, inr,
  ◌==◌,
}
use micro_hosted.Events.{Event, Bus, publish, push_ring, stamp, new_bus}

-- The numbers of the events are `n + 1`, `n + 2`, …, and they carry the epoch.
abbrev pub Numbered : String → ℕ → List Event → Type 0
Numbered epoch n [] = Unit {0}
Numbered epoch n (e ∷ es) = (e.seq ≡ n + 1) × (e.epoch ≡ epoch) × Numbered epoch (n + 1) es

-- `all` is everything that was published on the bus, oldest first.
pub record Logs (b : Bus) (all : List Event) : Type 0 where
  pub numbered : Numbered b.epoch 0 all
  pub counted : b.seq ≡ length all
  pub newest : b.ring ≡ drop (length all - b.capacity) all
  pub positive : 0 < b.capacity

Numbered-append :
    (epoch : String) (n : ℕ) (es : List Event) (e : Event)
    → Numbered epoch n es
    → e.seq ≡ n + length es + 1
    → e.epoch ≡ epoch
    → Numbered epoch n (es ++ (e ∷ []))
Numbered-append epoch n [] e h s p = (omega arith, p, tt)
Numbered-append epoch n (x ∷ es) e h s p =
    (h.0, h.1, Numbered-append epoch (n + 1) es e h.2 (omega arith) p)

pub Numbered-drop :
    (epoch : String) (k n : ℕ) (es : List Event)
    → Numbered epoch n es
    → k ≤ length es
    → Numbered epoch (n + k) (drop k es)
Numbered-drop epoch zero n es h le = subst (λ m. Numbered epoch m es) (omega arith) h
Numbered-drop epoch (suc k) n [] h le = tt
Numbered-drop epoch (suc k) n (e ∷ es) h le =
    subst (λ m. Numbered epoch m (drop k es)) (omega arith)
      (Numbered-drop epoch k (n + 1) es h.2 (omega arith))

drop_one : (k : ℕ) (es : List Event) → drop 1 (drop k es) ≡ drop (suc k) es
drop_one zero [] = refl
drop_one zero (e ∷ es) = refl
drop_one (suc k) [] = refl
drop_one (suc k) (e ∷ es) = drop_one k es

-- The ring after a push is again the newest part.
push_newest :
    (cap : ℕ) (all ring : List Event) (e : Event)
    → 0 < cap
    → ring ≡ drop (length all - cap) all
    → push_ring cap ring e ≡ drop (length (all ++ (e ∷ [])) - cap) (all ++ (e ∷ []))
unfolding push_ring
push_newest cap all ring e pos h =
    let kept : length ring ≡ length all - (length all - cap) =
      ap length h ∙ length-drop (length all - cap) all in
    let grown = length-append all (e ∷ []) in
    elim (Bool-cases (length ring == cap)) [
      | inl full ↦
          let next : length (all ++ (e ∷ [])) - cap ≡ suc (length all - cap) = ground arith in
          rw (full, push_ring, next, h, drop_one)
            (sym (drop-append_left (suc (length all - cap)) all (e ∷ []) (ground arith)))
      | inr free ↦
          let all_kept : length all - cap ≡ 0 = ground arith in
          let next : length (all ++ (e ∷ [])) - cap ≡ 0 = ground arith in
          rw (free, push_ring, next, h, all_kept)
    ]

-- A bus that was just made has published nothing.
pub new_bus-Logs : (epoch : String) (capacity : ℕ) → Logs (new_bus epoch capacity) []
unfolding new_bus
new_bus-Logs epoch capacity = record {
  numbered = tt;
  counted = refl;
  newest = ground arith;
  positive = ground arith;
}

-- Publishing appends the stamped event to the log, and the ring keeps the newest part.
pub publish-Logs :
    (b : Bus) (all : List Event) (now : ℕ) (e : Event)
    → Logs b all
    → b.seq + 1 < 2 ^ 64
    → Logs (publish now e b) (all ++ (stamp b now e ∷ []))
unfolding publish
publish-Logs b all now e h room = record {
  numbered =
      Numbered-append b.epoch 0 all (stamp b now e) h.numbered (omega (arith, h.counted)) refl;
  counted = omega (arith, h.counted, length-append all (stamp b now e ∷ []));
  newest = push_newest b.capacity all b.ring (stamp b now e) h.positive h.newest;
  positive = h.positive;
}
