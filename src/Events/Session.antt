-- ===== src/Events/Session.antt =====
-- Whole runs of the bus, seen by one subscriber.
use micro_hosted.Prelude.{
  ℕ, ◌+◌, ◌^◌, ◌≤◌, ◌<◌, ◌≡◌, refl, sym, ◌∙◌, subst, Bool, true, false, Option, none, some, List,
  [], ◌∷◌, ◌++◌, ◌==◌, map, String, arith, length, take, drop, drop-append_left, Bool-cases, inl,
  inr, if◌then◌else◌,
}
use mathlib.Core.List.{append-nil, append_assoc}
use micro_hosted.Events.{
  Event, Bus, Subscription, deliver, drop_locked, close_sub, at_sub, publish, subscribe, close,
  shutdown, shutting_down, stamp, fresh_subscription, backlog,
}
use micro_hosted.Events.Ring.{Logs, publish-Logs}
use micro_hosted.Events.Resume.{oldest, backlog_lem}
use micro_hosted.Events.Feed.{
  Fed, deliver-Fed, drop_locked-Fed, close_sub-Fed, receive, receive-Fed, get_sub, get_sub-map,
  get_sub-at_sub_self, get_sub-at_sub_ne, get_sub-append, get_sub-last,
}

-- What may happen after a subscription: the daemon's calls, and reads by the subscribers.
pub data Op : Type 0 where
  published : ℕ → Event → Op
  subscribed : String → ℕ → Bool → Op
  closed : ℕ → Op
  shut : Op
  received : ℕ → Op

-- The bus, all that was published on it, and what the observed subscriber has read.
pub record Session : Type 0 where
  pub bus : Bus
  pub all : List Event
  pub got : List Event

abbrev waiting : Option Subscription → List Event
waiting none = []
waiting (some s) = s.queue

unfoldable pub step : ℕ → Op → Session → Session
step i (published now e) f = record f {
  bus = publish now e f.bus;
  all = f.all ++ (stamp f.bus now e ∷ []);
}
step i (subscribed epoch seq from_start) f = record f {
  bus = (subscribe epoch seq from_start f.bus).1;
}
step i (closed j) f = record f { bus = close j f.bus }
step i shut f = record f { bus = shutdown f.bus }
step i (received j) f = record f {
  bus = record f.bus { subs = at_sub j receive f.bus.subs };
  got = if j == i then f.got ++ take 1 (waiting (get_sub i f.bus.subs)) else f.got;
}

unfoldable pub run : ℕ → List Op → Session → Session
run i [] f = f
run i (o ∷ os) f = run i os (step i o f)

-- The subscription at place `i` against what was published since the log was `past`.
pub record Observed (i : ℕ) (past : List Event) (f : Session) : Type 0 where
  pub sub : Subscription
  pub found : get_sub i f.bus.subs ≡ some sub
  pub tail : List Event
  pub grown : f.all ≡ past ++ tail
  pub fed : Fed sub f.got tail
  pub logs : Logs f.bus f.all

module _ (i : ℕ) (past : List Event) (f : Session) (h : Observed i past f) where
  published-Observed :
      (now : ℕ) (e : Event) → f.bus.seq + 1 < 2 ^ 64 → Observed i past (step i (published now e) f)
  unfolding step publish
  published-Observed now e room =
      let e' = stamp f.bus now e in
      record {
        sub = deliver e' h.sub;
        found = get_sub-map i (deliver e') f.bus.subs h.found;
        tail = h.tail ++ (e' ∷ []);
        grown = rw h.grown (append_assoc past h.tail (e' ∷ []));
        fed = deliver-Fed e' h.sub f.got h.tail h.fed;
        logs = unfold publish in publish-Logs f.bus f.all now e h.logs room;
      }

  Logs-of_subs : (ss : List Subscription) → Logs (record f.bus { subs = ss }) f.all
  Logs-of_subs ss = record {
    numbered = h.logs.numbered;
    counted = h.logs.counted;
    newest = h.logs.newest;
    positive = h.logs.positive;
  }

  subscribed-Observed :
      (epoch : String) (seq : ℕ) (from_start : Bool)
      → Observed i past (step i (subscribed epoch seq from_start) f)
  unfolding step subscribe
  subscribed-Observed epoch seq from_start = record {
    sub = h.sub;
    found = get_sub-append i f.bus.subs (fresh_subscription ∷ []) h.found;
    tail = h.tail;
    grown = h.grown;
    fed = h.fed;
    logs = Logs-of_subs (f.bus.subs ++ (fresh_subscription ∷ []));
  }

  -- a change of the subscription at place `j` that keeps it fed
  changed-Observed :
      (j : ℕ) (g : Subscription → Subscription) (got : List Event)
      → ((j == i) ≡ true → Fed (g h.sub) got h.tail)
      → ((j == i) ≡ false → got ≡ f.got)
      → Observed i past
          (record f { bus = record f.bus { subs = at_sub j g f.bus.subs }; got = got })
  changed-Observed j g got keeps same = elim (Bool-cases (j == i)) [
    | inl here ↦
        let at : j ≡ i = ground arith in
        record {
          sub = g h.sub;
          found =
              subst (λ k. get_sub i (at_sub k g f.bus.subs) ≡ some (g h.sub)) (sym at)
                (get_sub-at_sub_self i g f.bus.subs h.found);
          tail = h.tail;
          grown = h.grown;
          fed = keeps here;
          logs = Logs-of_subs (at_sub j g f.bus.subs);
        }
    | inr elsewhere ↦ record {
      sub = h.sub;
      found = get_sub-at_sub_ne i j g f.bus.subs elsewhere ∙ h.found;
      tail = h.tail;
      grown = h.grown;
      fed = subst (λ g. Fed h.sub g h.tail) (sym (same elsewhere)) h.fed;
      logs = Logs-of_subs (at_sub j g f.bus.subs);
    }
  ]

  closed-Observed : (j : ℕ) → Observed i past (step i (closed j) f)
  unfolding step close
  closed-Observed j =
      changed-Observed j close_sub f.got (λ _. close_sub-Fed h.sub f.got h.tail h.fed) (λ _. refl)

  shut-Observed : Observed i past (step i shut f)
  unfolding step shutdown
  shut-Observed = record {
    sub = drop_locked shutting_down h.sub;
    found = get_sub-map i (drop_locked shutting_down) f.bus.subs h.found;
    tail = h.tail;
    grown = h.grown;
    fed = drop_locked-Fed shutting_down h.sub f.got h.tail h.fed;
    logs = Logs-of_subs (map (drop_locked shutting_down) f.bus.subs);
  }

  received-Observed : (j : ℕ) → Observed i past (step i (received j) f)
  unfolding step
  received-Observed j =
      changed-Observed j receive
        (if j == i then f.got ++ take 1 (waiting (get_sub i f.bus.subs)) else f.got)
        (λ here. rw (here, h.found) (receive-Fed h.sub f.got h.tail h.fed))
        (λ elsewhere. rw elsewhere)

abbrev publishes : Op → ℕ
publishes (published _ _) = 1
publishes _ = 0

step-Observed :
    (i : ℕ) (past : List Event) (o : Op) (f : Session)
    → Observed i past f
    → f.bus.seq + 1 < 2 ^ 64
    → Observed i past (step i o f)
step-Observed i past (published now e) f h room = published-Observed i past f h now e room
step-Observed i past (subscribed epoch seq from) f h room =
    subscribed-Observed i past f h epoch seq from
step-Observed i past (closed j) f h room = closed-Observed i past f h j
step-Observed i past shut f h room = shut-Observed i past f h
step-Observed i past (received j) f h room = received-Observed i past f h j

seq-step-le :
    (i : ℕ) (o : Op) (f : Session) → f.bus.seq + 1 < 2 ^ 64 → (step i o f).bus.seq ≤ f.bus.seq + 1
unfolding step publish subscribe close shutdown
seq-step-le i (published now e) f room = omega arith
seq-step-le i _ f room = omega arith

run-Observed :
    (i : ℕ) (past : List Event) (os : List Op) (f : Session)
    → Observed i past f
    → f.bus.seq + length os < 2 ^ 64
    → Observed i past (run i os f)
unfolding run
run-Observed i past [] f h room = h
run-Observed i past (o ∷ os) f h room =
    run-Observed i past os (step i o f) (step-Observed i past o f h (omega arith))
      (omega (arith, seq-step-le i o f (omega arith)))

-- What a subscriber has after a run, where the bus published `published` in all.
pub record Complete (seq : ℕ) (missed : List Event) (f : Session) (i : ℕ) : Type 0 where
  pub sub : Subscription
  pub found : get_sub i f.bus.subs ≡ some sub
  pub lost : List Event
  pub whole : missed ++ (f.got ++ (sub.queue ++ lost)) ≡ drop seq f.all
  pub none_lost : sub.live ≡ true → lost ≡ []

-- A run begins with the observed subscriber's Subscribe.
abbrev pub begin : Bus → List Event → ℕ → Session
begin b all seq = record { bus = (subscribe b.epoch seq false b).1; all = all; got = [] }

module _ (b : Bus) (all : List Event) (h : Logs b all) (seq : ℕ) where
  begin-Observed : Observed (length b.subs) all (begin b all seq)
  unfolding subscribe
  begin-Observed = record {
    sub = fresh_subscription;
    found = get_sub-last b.subs fresh_subscription;
    tail = [];
    grown = sym (append-nil all);
    fed = record { rest = []; fed = refl; complete = λ _. refl; bounded = omega arith };
    logs = record {
      numbered = h.numbered;
      counted = h.counted;
      newest = h.newest;
      positive = h.positive;
    };
  }

  -- A subscriber of this run of the daemon resumes after event `seq`, and the ring still holds
  -- what it missed. Whatever is published, read, subscribed, closed or shut down afterwards: what
  -- it was given at once, what it has read since, what waits in its channel and what was lost are
  -- together exactly the events published after `seq`, in order; and nothing was lost while it
  -- was not dropped.
  pub resume-Complete :
      (os : List Op)
      → oldest b all ≤ seq
      → seq ≤ length all
      → b.seq + length os < 2 ^ 64
      → Complete seq
          (subscribe b.epoch seq false b).0.missed
          (run (length b.subs) os (begin b all seq))
          (length b.subs)
  unfolding subscribe
  resume-Complete os kept within room =
      let i = length b.subs in
      let o = run-Observed i all os (begin b all seq) begin-Observed room in
      let given = backlog_lem b all h seq in
      let e : (backlog b.epoch seq false b).0 ≡ drop seq all = ground (arith, given) in
      record {
        sub = o.sub;
        found = o.found;
        lost = o.fed.rest;
        whole = rw (e, o.fed.fed, o.grown) (sym (drop-append_left seq all o.tail within));
        none_lost = o.fed.complete;
      }
