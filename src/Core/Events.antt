-- ===== src/Core/Events.antt =====
-- core/events.rs. A subscriber whose receiver was dropped leaves the bus at the next event.
use aerion.Base.{
  ℕ, zero, suc, ◌≡◌, refl, sym, ap, ◌∙◌, inl, inr, Bool-cases, true, false, List, [], ◌∷◌, ◌++◌,
  arith, ◌==◌, if◌then◌else◌, length,
}
use aerion.Core.Types.{CoreEvent, CoreEventBus, Subscriber}

abbrev pub empty_bus : CoreEventBus
empty_bus = record { subscribers = []; subscriber_count = 0 }

-- `subscribe`: the new channel is the last of the bus.
unfoldable pub subscribe : CoreEventBus → CoreEventBus
subscribe b = record { subscribers = all; subscriber_count = length all }
  where
    all : List Subscriber
    all = b.subscribers ++ (record { is_open = true; received = [] } ∷ [])

-- `subscribers.retain(|subscriber| subscriber.send(event.clone()).is_ok())`
unfoldable pub deliver : CoreEvent → List Subscriber → List Subscriber
deliver e [] = []
deliver e (s ∷ r) =
    if s.is_open then record s { received = s.received ++ (e ∷ []) } ∷ deliver e r else deliver e r

unfoldable pub send : CoreEventBus → CoreEvent → CoreEventBus
unfolding deliver
send b e = record {
  subscribers = deliver e b.subscribers;
  subscriber_count = length (deliver e b.subscribers);
}

unfoldable pub dispatch : CoreEventBus → CoreEvent → CoreEventBus
unfolding send
dispatch b e = if b.subscriber_count == 0 then b else send b e

-- The cached count is the number of subscribers.
pub record IsCounted (b : CoreEventBus) : Type 0 where
  pub counted : b.subscriber_count ≡ length b.subscribers

pub send-IsCounted : (b : CoreEventBus) (e : CoreEvent) → IsCounted (send b e)
unfolding send
send-IsCounted b e = record { counted = refl }

subscribe-IsCounted : (b : CoreEventBus) → IsCounted (subscribe b)
unfolding subscribe
subscribe-IsCounted b = record { counted = refl }

skip_empty :
    (subs : List Subscriber) (n : ℕ) (e : CoreEvent)
    → n ≡ length subs
    → dispatch (record { subscribers = subs; subscriber_count = n }) e
      ≡ send (record { subscribers = subs; subscriber_count = n }) e
unfolding dispatch
skip_empty [] n e h = ground arith
skip_empty (s ∷ r) n e h = ground arith

dispatch-send : (b : CoreEventBus) (e : CoreEvent) → IsCounted b → dispatch b e ≡ send b e
dispatch-send b e c = skip_empty b.subscribers b.subscriber_count e c.counted

pub dispatch-IsCounted : (b : CoreEventBus) (e : CoreEvent) → IsCounted b → IsCounted (dispatch b e)
dispatch-IsCounted b e c = rw (dispatch-send b e c) (send-IsCounted b e)

-- What happens to a bus: its operations, and the drop of the receiver that is the k-th of those held.
pub data BusOp : Type 0 where
  subscribes : BusOp
  sends : CoreEvent → BusOp
  dispatches : CoreEvent → BusOp
  drops : ℕ → BusOp

-- The channel of the k-th receiver closes; the bus does not notice.
unfoldable pub close : ℕ → List Subscriber → List Subscriber
close k [] = []
close zero (s ∷ r) = if s.is_open then record s { is_open = false } ∷ r else s ∷ close zero r
close (suc k) (s ∷ r) = if s.is_open then s ∷ close k r else s ∷ close (suc k) r

unfoldable pub bus_step : CoreEventBus → BusOp → CoreEventBus
unfolding close
bus_step b subscribes = subscribe b
bus_step b (sends e) = send b e
bus_step b (dispatches e) = dispatch b e
bus_step b (drops k) = record b { subscribers = close k b.subscribers }

unfoldable pub run_ops : CoreEventBus → List BusOp → CoreEventBus
unfolding bus_step
run_ops b [] = b
run_ops b (op ∷ ops) = run_ops (bus_step b op) ops

-- What the receivers that are held have received, in the order of their subscription.
unfoldable pub inboxes : List Subscriber → List (List CoreEvent)
inboxes [] = []
inboxes (s ∷ r) = if s.is_open then s.received ∷ inboxes r else inboxes r

-- The specification: each operation on the inboxes alone.
unfoldable pub append_each : CoreEvent → List (List CoreEvent) → List (List CoreEvent)
append_each e [] = []
append_each e (i ∷ r) = (i ++ (e ∷ [])) ∷ append_each e r

unfoldable pub remove_nth : ℕ → List (List CoreEvent) → List (List CoreEvent)
remove_nth k [] = []
remove_nth zero (i ∷ r) = r
remove_nth (suc k) (i ∷ r) = i ∷ remove_nth k r

unfoldable pub spec_step : List (List CoreEvent) → BusOp → List (List CoreEvent)
unfolding append_each remove_nth
spec_step r subscribes = r ++ ([] ∷ [])
spec_step r (sends e) = append_each e r
spec_step r (dispatches e) = append_each e r
spec_step r (drops k) = remove_nth k r

unfoldable pub run_spec : List (List CoreEvent) → List BusOp → List (List CoreEvent)
unfolding spec_step
run_spec r [] = r
run_spec r (op ∷ ops) = run_spec (spec_step r op) ops

inboxes-snoc :
    (subs : List Subscriber)
    → inboxes (subs ++ (record { is_open = true; received = [] } ∷ [])) ≡ inboxes subs ++ ([] ∷ [])
unfolding inboxes
inboxes-snoc [] = refl
inboxes-snoc (s ∷ r) = ground (arith, inboxes-snoc r)

inboxes-deliver :
    (e : CoreEvent) (subs : List Subscriber)
    → inboxes (deliver e subs) ≡ append_each e (inboxes subs)
unfolding inboxes deliver append_each
inboxes-deliver e [] = refl
inboxes-deliver e (s ∷ r) = elim (Bool-cases s.is_open) [
  | inl open' ↦ simp open' (ap (◌∷◌ (s.received ++ (e ∷ []))) (inboxes-deliver e r))
  | inr shut ↦ simp shut (inboxes-deliver e r)
]

inboxes-close :
    (k : ℕ) (subs : List Subscriber) → inboxes (close k subs) ≡ remove_nth k (inboxes subs)
unfolding inboxes close remove_nth
inboxes-close k [] = refl
inboxes-close zero (s ∷ r) = ground (arith, inboxes-close zero r)
inboxes-close (suc k) (s ∷ r) = ground (arith, inboxes-close k r, inboxes-close (suc k) r)

length-close : (k : ℕ) (subs : List Subscriber) → length (close k subs) ≡ length subs
unfolding close
length-close k [] = refl
length-close zero (s ∷ r) = ground (arith, length-close zero r)
length-close (suc k) (s ∷ r) = ground (arith, length-close k r, length-close (suc k) r)

bus_step-IsCounted : (b : CoreEventBus) (op : BusOp) → IsCounted b → IsCounted (bus_step b op)
unfolding bus_step
bus_step-IsCounted b subscribes c = subscribe-IsCounted b
bus_step-IsCounted b (sends e) c = send-IsCounted b e
bus_step-IsCounted b (dispatches e) c = dispatch-IsCounted b e c
bus_step-IsCounted b (drops k) c = record {
  counted = c.counted ∙ sym (length-close k b.subscribers);
}

inboxes-send :
    (b : CoreEventBus) (e : CoreEvent)
    → inboxes (send b e).subscribers ≡ append_each e (inboxes b.subscribers)
unfolding send
inboxes-send b e = inboxes-deliver e b.subscribers

inboxes-bus_step :
    (b : CoreEventBus) (op : BusOp)
    → IsCounted b
    → inboxes (bus_step b op).subscribers ≡ spec_step (inboxes b.subscribers) op
unfolding bus_step spec_step subscribe
inboxes-bus_step b subscribes c = inboxes-snoc b.subscribers
inboxes-bus_step b (sends e) c = inboxes-send b e
inboxes-bus_step b (dispatches e) c = rw (dispatch-send b e c) (inboxes-send b e)
inboxes-bus_step b (drops k) c = inboxes-close k b.subscribers

inboxes-run_ops :
    (b : CoreEventBus) (ops : List BusOp)
    → IsCounted b
    → inboxes (run_ops b ops).subscribers ≡ run_spec (inboxes b.subscribers) ops
unfolding run_ops run_spec
inboxes-run_ops b [] c = refl
inboxes-run_ops b (op ∷ ops) c =
    inboxes-run_ops (bus_step b op) ops (bus_step-IsCounted b op c)
    ∙ ap (λ r. run_spec r ops) (inboxes-bus_step b op c)

-- Whatever happens to a bus that starts empty, in whatever order: subscriptions, events sent with `send`
-- or `dispatch`, and drops of receivers. Each receiver that is still held has received exactly the
-- events since it subscribed, in their order, although `dispatch` asks only the cached count.
pub run_ops-run_spec :
    (ops : List BusOp) → inboxes (run_ops empty_bus ops).subscribers ≡ run_spec [] ops
unfolding inboxes
run_ops-run_spec ops = inboxes-run_ops empty_bus ops (record { counted = refl })
