-- ===== src/Events/Feed.antt =====
-- One subscriber's life: what it was given at Subscribe, what it has read from its channel, what
-- stands in the channel, and what it lost by being dropped.
use micro_hosted.Prelude.{
  ℕ, zero, suc, ◌≤◌, ◌≡◌, refl, ap, sym, subst, true, false, Option, none, some, List, [], ◌∷◌,
  ◌++◌, ◌==◌, map, arith, length, take, drop, length-drop, length-append, Bool-cases, inl, inr, ltb,
  ltb→lt,
}
use mathlib.Core.Option
use mathlib.Core.List.{append-nil, append_assoc}
use micro_hosted.Events.{
  Event, Subscription, Drop, deliver, drop_locked, close_sub, at_sub, slow, sub_buffer,
}

-- A subscription against `tail`, the events published since it began, of which `got` was read:
-- they are what was read, what is in the channel, and a rest that is empty while it is live.
pub record Fed (s : Subscription) (got tail : List Event) : Type 0 where
  pub rest : List Event
  pub fed : got ++ (s.queue ++ rest) ≡ tail
  pub complete : s.live ≡ true → rest ≡ []
  pub bounded : length s.queue ≤ sub_buffer

more :
    (got queue rest tail : List Event) (e : Event)
    → got ++ (queue ++ rest) ≡ tail
    → got ++ (queue ++ (rest ++ (e ∷ []))) ≡ tail ++ (e ∷ [])
more got queue rest tail e h = rw (← h) (simp append_assoc)

pub deliver-Fed :
    (e : Event) (s : Subscription) (got tail : List Event)
    → Fed s got tail
    → Fed (deliver e s) got (tail ++ (e ∷ []))
unfolding deliver
deliver-Fed e s got tail f =
    let later = more got s.queue f.rest tail e f.fed in
    elim (Bool-cases s.live) [
      | inr dead ↦
          let e' : deliver e s ≡ s = ground arith in
          subst (λ t. Fed t got (tail ++ (e ∷ []))) (sym e')
            (record {
              rest = f.rest ++ (e ∷ []);
              fed = later;
              complete = λ h. cc;
              bounded = f.bounded;
            })
      | inl live ↦ elim (Bool-cases (ltb (length s.queue) sub_buffer)) [
        | inl room ↦
            let e' : deliver e s ≡ record s { queue = s.queue ++ (e ∷ []) } = ground arith in
            subst (λ t. Fed t got (tail ++ (e ∷ []))) (sym e')
              (record {
                rest = [];
                fed = rw append-nil (
                    subst (λ r. got ++ (s.queue ++ (r ++ (e ∷ []))) ≡ tail ++ (e ∷ []))
                      (f.complete live) later);
                complete = λ h. refl;
                bounded = omega (arith, length-append s.queue (e ∷ []), ltb→lt _ _ room);
              })
        | inr full ↦
            let e' : deliver e s ≡ record s { live = false; reason = some slow } = ground arith in
            subst (λ t. Fed t got (tail ++ (e ∷ []))) (sym e')
              (record {
                rest = f.rest ++ (e ∷ []);
                fed = later;
                complete = λ h. cc;
                bounded = f.bounded;
              })
      ]
    ]

pub drop_locked-Fed :
    (why : Drop) (s : Subscription) (got tail : List Event)
    → Fed s got tail
    → Fed (drop_locked why s) got tail
unfolding drop_locked
drop_locked-Fed why s got tail f = elim (Bool-cases s.live) [
  | inr dead ↦ subst (λ t. Fed t got tail) (let e : s ≡ drop_locked why s = ground arith in e) f
  | inl live ↦
      let e : record s { live = false; reason = some why } ≡ drop_locked why s = ground arith in
      subst (λ t. Fed t got tail) e
        (record { rest = f.rest; fed = f.fed; complete = λ h. cc; bounded = f.bounded })
]

pub close_sub-Fed :
    (s : Subscription) (got tail : List Event) → Fed s got tail → Fed (close_sub s) got tail
unfolding close_sub
close_sub-Fed s got tail f = elim (Bool-cases s.live) [
  | inr dead ↦ subst (λ t. Fed t got tail) (let e : s ≡ close_sub s = ground arith in e) f
  | inl live ↦
      let e : record s { live = false } ≡ close_sub s = ground arith in
      subst (λ t. Fed t got tail) e
        (record { rest = f.rest; fed = f.fed; complete = λ h. cc; bounded = f.bounded })
]

-- The subscriber takes the oldest event from its channel.
unfoldable pub receive : Subscription → Subscription
receive s = record s { queue = drop 1 s.queue }

take-drop : (es : List Event) → take 1 es ++ drop 1 es ≡ es
take-drop [] = refl
take-drop (e ∷ es) = refl

pub receive-Fed :
    (s : Subscription) (got tail : List Event)
    → Fed s got tail
    → Fed (receive s) (got ++ take 1 s.queue) tail
unfolding receive
receive-Fed s got tail f = record {
  rest = f.rest;
  fed =
      rw
        (
          append_assoc got (take 1 s.queue) (drop 1 s.queue ++ f.rest),
          ← append_assoc (take 1 s.queue) (drop 1 s.queue) f.rest,
          take-drop s.queue,
        )
        f.fed;
  complete = f.complete;
  bounded = omega (arith, length-drop 1 s.queue, f.bounded);
}

-- The observed subscription among the others, by its place.
unfoldable pub get_sub : ℕ → List Subscription → Option Subscription
get_sub i [] = none
get_sub zero (s ∷ ss) = some s
get_sub (suc i) (s ∷ ss) = get_sub i ss

pub get_sub-map :
    (i : ℕ) (f : Subscription → Subscription) (ss : List Subscription) {s : Subscription}
    → get_sub i ss ≡ some s
    → get_sub i (map f ss) ≡ some (f s)
unfolding get_sub
get_sub-map i f [] h = ground arith
get_sub-map zero f (x ∷ ss) h = ap (λ o. Option.map f o) h
get_sub-map (suc i) f (x ∷ ss) h = get_sub-map i f ss h

pub get_sub-at_sub_self :
    (i : ℕ) (f : Subscription → Subscription) (ss : List Subscription) {s : Subscription}
    → get_sub i ss ≡ some s
    → get_sub i (at_sub i f ss) ≡ some (f s)
unfolding get_sub at_sub
get_sub-at_sub_self i f [] h = ground arith
get_sub-at_sub_self zero f (x ∷ ss) h = ap (λ o. Option.map f o) h
get_sub-at_sub_self (suc i) f (x ∷ ss) h = get_sub-at_sub_self i f ss h

pub get_sub-at_sub_ne :
    (i j : ℕ) (f : Subscription → Subscription) (ss : List Subscription)
    → (j == i) ≡ false
    → get_sub i (at_sub j f ss) ≡ get_sub i ss
unfolding get_sub at_sub
get_sub-at_sub_ne i j f [] h = refl
get_sub-at_sub_ne zero zero f (x ∷ ss) h = cc
get_sub-at_sub_ne zero (suc j) f (x ∷ ss) h = refl
get_sub-at_sub_ne (suc i) zero f (x ∷ ss) h = refl
get_sub-at_sub_ne (suc i) (suc j) f (x ∷ ss) h = get_sub-at_sub_ne i j f ss (ground arith)

pub get_sub-append :
    (i : ℕ) (ss rest : List Subscription) {s : Subscription}
    → get_sub i ss ≡ some s
    → get_sub i (ss ++ rest) ≡ some s
unfolding get_sub
get_sub-append i [] rest h = ground arith
get_sub-append zero (x ∷ ss) rest h = h
get_sub-append (suc i) (x ∷ ss) rest h = get_sub-append i ss rest h

pub get_sub-last :
    (ss : List Subscription) (s : Subscription) → get_sub (length ss) (ss ++ (s ∷ [])) ≡ some s
unfolding get_sub
get_sub-last [] s = refl
get_sub-last (x ∷ ss) s = get_sub-last ss s
