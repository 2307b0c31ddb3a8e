-- ===== src/Events.antt =====
-- The daemon's event bus (internal/events/bus.go, with the Event of pkg/types/events.go). The
-- subscriptions stand in a list in the order of Subscribe, and a subscription's pointer is its
-- place there; `live` says that it is in the map `subs`. A channel is the list of the events
-- that its subscriber has not read yet. The clock's reading is an argument of `publish`, the
-- random epoch one of `new_bus`; the mutex makes each operation one step.
pub mod Ring
pub mod Resume
pub mod Feed
pub mod Session
mod Tests
use micro_hosted.Prelude.{
  ℕ, zero, suc, ◌+◌, ◌-◌, ◌^◌, ◌%◌, Bool, true, false, ◌||◌, not, Option, none, some, List, [], ◌∷◌,
  ◌++◌, map, String, ltb, leb, ◌==◌, if◌then◌else◌, str_eq, length, drop, Dict,
}

pub record Event : Type 0 where
  pub epoch : String
  pub seq : ℕ
  pub time : ℕ
  pub kind : String
  pub vm : String
  pub name : String
  pub labels : Dict String
  pub network : String
  pub reason : String
  pub payload : Dict String

abbrev pub default_capacity : ℕ
default_capacity = 1024

abbrev pub sub_buffer : ℕ
sub_buffer = 256

-- Why the bus closed a subscription.
pub data Drop : Type 0 where
  slow shutting_down : Drop

-- Why a subscriber must read the state again.
pub data Reset : Type 0 where
  new_epoch gap : Reset

pub record Subscription : Type 0 where
  pub queue : List Event
  pub live : Bool
  pub reason : Option Drop

pub record Bus : Type 0 where
  pub epoch : String
  pub seq : ℕ
  pub ring : List Event
  pub capacity : ℕ
  pub subs : List Subscription

unfoldable pub new_bus : String → ℕ → Bus
new_bus epoch capacity = record {
  epoch = epoch;
  seq = 0;
  ring = [];
  capacity = if capacity == 0 then default_capacity else capacity;
  subs = [];
}

-- `dropLocked`.
unfoldable pub drop_locked : Drop → Subscription → Subscription
drop_locked why s = if s.live then record s { live = false; reason = some why } else s

-- `select { case s.ch <- e: default: … }`, for the subscriptions in the map.
unfoldable pub deliver : Event → Subscription → Subscription
unfolding drop_locked
deliver e s =
    if not s.live
    then s
    else if ltb (length s.queue) sub_buffer
    then record s { queue = s.queue ++ (e ∷ []) }
    else drop_locked slow s

-- A full ring loses its oldest event before the new one is appended.
unfoldable pub push_ring : ℕ → List Event → Event → List Event
push_ring capacity ring e = (if length ring == capacity then drop 1 ring else ring) ++ (e ∷ [])

abbrev pub u64 : ℕ → ℕ
u64 n = n % 2 ^ 64

-- The event as it is published: with the bus's epoch, its number and the time.
abbrev pub stamp : Bus → ℕ → Event → Event
stamp b now e = record e { epoch = b.epoch; seq = u64 (b.seq + 1); time = now }

unfoldable pub publish : ℕ → Event → Bus → Bus
unfolding deliver push_ring
publish now e b =
    let e' = stamp b now e in
    record b {
      seq = u64 (b.seq + 1);
      ring = push_ring b.capacity b.ring e';
      subs = map (deliver e') b.subs;
    }

-- `ring[0].Seq`, where the ring has an event.
abbrev pub first_seq : List Event → ℕ
first_seq [] = 0
first_seq (e ∷ _) = e.seq

abbrev pub is_empty : List Event → Bool
is_empty [] = true
is_empty (_ ∷ _) = false

-- The switch of `Subscribe`: the backlog and the reset.
unfoldable pub backlog : String → ℕ → Bool → Bus → List Event × Option Reset
backlog epoch seq from_start b =
    if from_start
    then (b.ring, none)
    else if not (str_eq epoch b.epoch)
    then (b.ring, some new_epoch)
    else if leb b.seq seq
    then ([], none)
    else if is_empty b.ring || ltb (seq + 1) (first_seq b.ring)
    then (b.ring, some gap)
    else (drop (seq + 1 - first_seq b.ring) b.ring, none)

abbrev pub position : ℕ → List Event → ℕ
position seq [] = seq
position seq (e ∷ _) = e.seq - 1

pub record Resumed : Type 0 where
  pub missed : List Event
  pub reset : Option Reset
  pub at : ℕ
  pub sub : ℕ

abbrev pub fresh_subscription : Subscription
fresh_subscription = record { queue = []; live = true; reason = none }

unfoldable pub subscribe : String → ℕ → Bool → Bus → Resumed × Bus
subscribe epoch seq from_start b =
    let (missed, reset) = backlog epoch seq from_start b in
    (
      record { missed = missed; reset = reset; at = position b.seq missed; sub = length b.subs },
      record b { subs = b.subs ++ (fresh_subscription ∷ []) },
    )

-- A change of the subscription at a place.
unfoldable pub at_sub : ℕ → (Subscription → Subscription) → List Subscription → List Subscription
at_sub i f [] = []
at_sub zero f (s ∷ ss) = f s ∷ ss
at_sub (suc i) f (s ∷ ss) = s ∷ at_sub i f ss

-- `Close`.
unfoldable pub close_sub : Subscription → Subscription
close_sub s = if s.live then record s { live = false } else s

unfoldable pub close : ℕ → Bus → Bus
unfolding close_sub at_sub
close i b = record b { subs = at_sub i close_sub b.subs }

unfoldable pub shutdown : Bus → Bus
unfolding drop_locked
shutdown b = record b { subs = map (drop_locked shutting_down) b.subs }
