-- ===== src/Arena/Tests.antt =====
-- Runs of the arena, and its theorems at concrete inputs.
use jackstay.Base.{
  ℕ, ◌+◌, ◌%◌, ◌≤◌, ◌<◌, ◌≡◌, ◌≢◌, refl, true, false, some, List, [], ◌∷◌, length, arith, u64_mod,
  ◌⊎◌,
}
use jackstay.Base.Range.{any_below, count_below, find_from}
use jackstay.Base.Result.{ok}
use jackstay.Admission.{AdmissionBook, AdmissionLimits, initial, grant, admit}
use jackstay.Admission
use jackstay.Base.{none}
use jackstay.Base.Dict.{lookup}
use jackstay.Arena.{
  ControlMap, ResourceMap, ArenaConfig, ArenaProducer, Environment, Incarnation, ResourceLayout,
  published, signalled, default_descriptor, max_generation,
}
use jackstay.Arena.Layout
use jackstay.Arena.Layout.{record_offset, payload_offset, control_len, claim_len, ring_offset}
use jackstay.Arena.Layout.Bounds.{new-bounds}
use jackstay.Arena.Layout.Words.{claim, mapping, offset, claim_len-apart, control_len-ring}
use jackstay.Arena.Claims.{
  drained, has_mappings, has_claims, claim_slot, signal, cleared, return_credit,
}
use jackstay.Arena.Cleanup.{
  observe, timeline_of, observe_exit, observe_process, observe_deadline, settle, poll_release,
  disarm, poll_slot, poll_slots, poll, release,
}
use jackstay.Arena.Cleanup.Evidence.{Reached, HasExited, Synchronous, view, poll-evidence}
use jackstay.Arena.Collecting.{poll_cleanup, poll_all, collect_quiescent, collect_retired}
use jackstay.Arena.Selecting.{any_contains, is_retained, offered, consider, select}
use jackstay.Arena.Publishing.{
  copied, publish, publish_prepared, publish_polled, publish_into, publish_found, deliver,
  signal_all, written, advertised,
}
use jackstay.Arena.Publishing.Invariant.{IsSound}
use jackstay.Arena.Publishing.Progress.{Advances, publish-Advances}
use jackstay.Arena.Attaching.{
  admitted, prepare, new_control, new_map, new_claims, fresh, create, attach_with_recipient,
}
use jackstay.Arena.Attaching.Creating.{create-IsSound}
use jackstay.Arena.Acquiring
use jackstay.Arena.Acquiring.{
  acquire_next, checked, acquire, acquire_from, contradicts, ArenaConsumer, acquire_latest,
  free_slot, is_closed, is_configured, is_current,
}
use jackstay.Arena.Acquiring.Order.{Answers, acquire_next-due}
use jackstay.Arena.Acquiring.Delivery.{Gets, publish-acquire_latest}
use jackstay.Arena.Lifetime.{start_of, then_call, attaching, publishing, create-Calls-IsSound}
use jackstay.Arena.Configuring.{
  ConsumerState, relinquish, let_go_of, owns, slot_of, map_of, unmapped, taken, viewed,
  configuration_offer, from_grant,
}
use jackstay.Arena.Configuring.Offers.{
  from_there, then_act, taking_latest, relinquishing, IsOffered, configuration_offer-Acts,
}

abbrev host : Environment
host = record {
  page_size = 4096;
  host_time_ns = 77;
  now = 0;
  deadline_after = λ timeout. some timeout;
  wake = λ incarnation. signalled;
  exited = λ process. ok false;
  completed_value = λ timeline. ok 3;
  notify_at = λ timeline value. ok tt;
  has_fired = λ incarnation index. false;
  is_shared = λ allocation. false;
  native_ready = λ allocation. ok true;
  new_storage = λ len. ok tt;
  new_scope = λ incarnation. incarnation + 100;
}

abbrev small : ArenaConfig
small = record {
  resource_capacity = 5;
  retained_history = 2;
  producer_reserve = 1;
  payload_capacity = 4;
  memory_budget = 1048576;
  max_incarnations = 2;
  drain_timeout = 5;
}

abbrev layout : ResourceLayout
layout = record {
  resources = 5;
  history = 2;
  payload_capacity = 4;
  records = 256;
  payload = 0;
  len = 4096;
  payload_len = 4096;
}

layout_new : Layout.new 4096 5 2 4 ≡ ok layout
unfolding Layout.new Layout.checked_add Layout.checked_mul Layout.page_rounded Layout.rounded
    Layout.payload_size
layout_new = refl

abbrev limits : AdmissionLimits
limits = record {
  resource_capacity = 5;
  retained_history = 2;
  producer_reserve = 1;
  allocated_bytes = 8192;
  fixed_bytes = 4096;
  memory_budget = 1048576;
  max_incarnations = 2;
}

abbrev producer : ArenaProducer
producer = fresh host small false (layout, initial limits 12288)

created : create host small 0 false ≡ ok producer
unfolding create prepare Layout.new Layout.checked_add Layout.checked_mul Layout.page_rounded
    Layout.rounded Layout.payload_size control_len admitted Admission.new
created = refl

-- Two bytes, published by the new producer.
abbrev two : List ℕ
two = 1 ∷ 2 ∷ []

polled : (poll_cleanup host producer).1 ≡ ok 0
unfolding fresh poll_cleanup poll_all collect_quiescent collect_retired
polled = refl

sound : IsSound producer
sound = create-IsSound host small 0 false (omega arith) (omega arith) created

open_now : producer.control.terminal ≡ 0
unfolding fresh new_control
open_now = refl

installed : producer.resources ≡ some (new_map layout 1)
unfolding fresh
installed = refl

fits : length two ≤ (new_map layout 1).layout.payload_capacity
unfolding new_map
fits = omega arith

left : producer.cursor ≢ max_generation
unfolding fresh
left = omega arith

unreserved :
    count_below (new_map layout 1).layout.resources (new_map layout 1).reserved
    < producer.admission.limits.producer_reserve
unfolding fresh new_map count_below initial
unreserved = omega arith

publish-Advances_example :
    Advances host
      (producer.cursor + 1)
      default_descriptor
      two
      (publish host producer default_descriptor two)
publish-Advances_example =
    publish-Advances host producer (new_map layout 1) two default_descriptor {released = 0} sound
      open_now polled installed fits left unreserved

create-Calls-IsSound_example :
    IsSound
      (publish_prepared host
        (attach_with_recipient host producer 2 9 (some 9)).0
        two
        (λ index generation. ok (some default_descriptor))).0
create-Calls-IsSound_example =
    create-Calls-IsSound host small 0 false (omega arith) (omega arith) created (
      then_call (then_call start_of (attaching host 2 9 (some 9)))
        (publishing host two (λ index generation. ok (some default_descriptor))))

abbrev consumer : ArenaConsumer
consumer = record {
  control = (publish host producer default_descriptor two).0.control;
  claims = new_claims host 1 2 9 1;
  resources = (publish host producer default_descriptor two).0.resources;
  validate_descriptor = λ d. ok tt;
}

published_one : (publish host producer default_descriptor two).1 ≡ ok (published 1)
unfolding fresh publish publish_prepared publish_polled publish_into publish_found copied deliver
    signal_all select consider offered poll_cleanup poll_all collect_quiescent collect_retired
    new_map new_control is_retained any_contains
published_one = refl

consumer_open : is_closed consumer ≡ false
unfolding is_closed new_claims fresh publish publish_prepared publish_polled publish_into
    publish_found deliver signal_all select consider offered poll_cleanup poll_all collect_quiescent
    collect_retired new_map new_control is_retained any_contains advertised
consumer_open = refl

consumer_configured : is_configured consumer ≡ true
unfolding is_configured is_current new_claims fresh publish publish_prepared publish_polled
    publish_into publish_found deliver signal_all select consider offered poll_cleanup poll_all
    collect_quiescent collect_retired new_map new_control is_retained any_contains advertised
    written copied
consumer_configured = refl

consumer_free : free_slot consumer.claims ≡ some 0
unfolding free_slot new_claims find_from
consumer_free = refl

first_seen : (publish host producer default_descriptor two).0.control.first_cursor ≤ 1
unfolding fresh publish publish_prepared publish_polled publish_into publish_found copied deliver
    signal_all select consider offered poll_cleanup poll_all collect_quiescent collect_retired
    new_map new_control is_retained any_contains advertised
first_seen = omega arith

publish-acquire_latest_example :
    Gets host (acquire_latest host consumer 0) consumer 0 1 default_descriptor two
publish-acquire_latest_example =
    publish-acquire_latest host producer consumer default_descriptor two 1 0 0 sound published_one
      refl refl consumer_open consumer_configured consumer_free (λ d. refl) (omega arith) first_seen

-- A native frame whose consumer has finished, with a release at value 3 of timeline 11.
abbrev holding : Incarnation
holding = record {
  claims = record (new_claims host 1 1 9 1) {
    claim = λ index. 7;
    release_id = λ index. 1;
    release_value = λ index. 3;
    release_pending = λ index. 2;
  };
  observer = record (observe true (some 9) 5) { timelines = 11 ∷ [] };
}

holding_claim : holding.claims.claim 0 ≢ 0
holding_claim = λ e. omega arith

holding_returned : (poll host holding).claims.claim 0 ≡ 0
unfolding poll poll_slots poll_slot poll_release timeline_of settle disarm release return_credit
    cleared signal observe observe_process observe_exit observe_deadline drained has_mappings
    has_claims any_below new_claims
holding_returned = refl

poll-evidence_example :
    (Reached host (view holding 0)
      × ((holding.claims.release_pending 0 ≡ 2)
          ⊎ ((holding.claims.release_pending 0 ≡ 1) × HasExited host holding)))
    ⊎ (HasExited host holding × Synchronous host (view holding 0))
poll-evidence_example = poll-evidence host holding 0 holding_claim holding_returned

new-bounds_example :
    (0 < layout.history)
    × (layout.history < layout.resources)
    × (layout.len % 4096 ≡ 0)
    × (layout.payload_len % 4096 ≡ 0)
    × (layout.len + layout.payload_len < u64_mod)
    × (256 ≤ record_offset layout 3)
    × (record_offset layout 3 % 128 ≡ 0)
    × (record_offset layout 3 + 256 ≤ layout.len)
    × (payload_offset layout 3 + 4 ≤ layout.payload_len)
    × ((j : ℕ) → 3 < j → payload_offset layout 3 + 4 ≤ payload_offset layout j)
new-bounds_example = new-bounds 4096 5 2 4 3 layout_new (omega arith)

claim_len_two : claim_len 4096 2 ≡ ok 4096
unfolding claim_len Layout.checked_add Layout.checked_mul Layout.page_rounded Layout.rounded
claim_len_two = refl

claim_len-apart_example :
    (128 ≤ offset 2 (claim 1))
    × (offset 2 (claim 1) % 8 ≡ 0)
    × (offset 2 (claim 1) + 8 ≤ 4096)
    × (offset 2 (claim 1) ≡ offset 2 (mapping 3) → claim 1 ≡ mapping 3)
claim_len-apart_example =
    claim_len-apart 4096 2 (claim 1) (mapping 3) claim_len_two (omega arith) (omega arith)

control_len_two : control_len 4096 2 ≡ ok 4096
unfolding control_len Layout.checked_add Layout.checked_mul Layout.page_rounded Layout.rounded
control_len_two = refl

control_len-ring_example :
    (256 ≤ ring_offset 2 6)
    × (ring_offset 2 6 % 8 ≡ 0)
    × (ring_offset 2 6 + 8 ≤ 4096)
    × ((later : ℕ) → 6 < later → later < 8 → ring_offset 2 6 ≢ ring_offset 2 later)
control_len-ring_example = control_len-ring 4096 2 6 control_len_two (omega arith)

-- An allocation with one frame, and the control map that advertises it.
abbrev first_map : ResourceMap
first_map = record (new_map layout 1) {
  state = λ index. 3;
  descriptor = λ index. record default_descriptor { cursor = 1 };
}

abbrev first_control : ControlMap
first_control = record (new_control host 2) { latest = 1; ring = λ word. 1 }

abbrev made : ConsumerState
made = record {
  claims = record (new_claims host 1 2 9 1) { offered_generation = 0 };
  resources = some (record { map = first_map; mapping_slot = 0 });
  leases = λ i. none;
  offer = none;
}

from_grant-made :
    (from_grant (new_claims host 1 2 9 first_map.generation) (ok first_map)).1 ≡ ok made
unfolding from_grant new_map
from_grant-made = refl

-- A consumer that has taken the frame and given up the allocation since.
abbrev leasing : ConsumerState
leasing = relinquish (taken made (acquire_latest host (viewed first_control (λ d. ok tt) made) 0))

abbrev replaced : ArenaProducer
replaced = record producer {
  resources = some (new_map layout 2);
  incarnations = (1, record { claims = leasing.claims; observer = observe false (some 9) 5 }) ∷ [];
}

leasing_lease : leasing.leases 0 ≡ some 0
unfolding relinquish let_go_of owns slot_of taken viewed map_of unmapped acquire_latest checked
    is_closed is_configured is_current acquire acquire_from free_slot find_from Acquiring.validate
    contradicts claim_slot new_claims new_map new_control Layout.payload_offset any_below fresh
leasing_lease = refl

leasing_known :
    lookup leasing.claims.incarnation replaced.incarnations
    ≡ some (record { claims = leasing.claims; observer = observe false (some 9) 5 })
unfolding relinquish let_go_of owns slot_of taken viewed map_of unmapped acquire_latest checked
    is_closed is_configured is_current acquire acquire_from free_slot find_from Acquiring.validate
    contradicts claim_slot new_claims new_map new_control Layout.payload_offset any_below fresh
    lookup
leasing_known = refl

leasing_active : leasing.claims.active ≢ 0
unfolding relinquish let_go_of owns slot_of taken viewed map_of unmapped acquire_latest checked
    is_closed is_configured is_current acquire acquire_from free_slot find_from Acquiring.validate
    contradicts claim_slot new_claims new_map new_control Layout.payload_offset any_below fresh
leasing_active = λ e. omega arith

leasing_quiet : leasing.claims.offered_generation ≡ 0
unfolding relinquish let_go_of owns slot_of taken viewed map_of unmapped acquire_latest checked
    is_closed is_configured is_current acquire acquire_from free_slot find_from Acquiring.validate
    contradicts claim_slot new_claims new_map new_control Layout.payload_offset any_below fresh
leasing_quiet = refl

configuration_offer-Acts_example :
    IsOffered (new_map layout 2) leasing (configuration_offer host replaced leasing)
configuration_offer-Acts_example =
    configuration_offer-Acts host 1 2 9 first_map replaced from_grant-made
      (then_act (then_act from_there (taking_latest host first_control (λ d. ok tt) 0))
        relinquishing)
      leasing_known leasing_active refl leasing_quiet refl

history_kept : 0 < consumer.control.history
unfolding fresh publish publish_prepared publish_polled publish_into publish_found copied deliver
    signal_all select consider offered poll_cleanup poll_all collect_quiescent collect_retired
    new_map new_control is_retained any_contains advertised
history_kept = omega arith

first_numbered : 0 < consumer.control.first_cursor
unfolding fresh publish publish_prepared publish_polled publish_into publish_found copied deliver
    signal_all select consider offered poll_cleanup poll_all collect_quiescent collect_retired
    new_map new_control is_retained any_contains advertised
first_numbered = omega arith

first_reached : consumer.control.first_cursor ≤ consumer.control.latest + 1
unfolding fresh publish publish_prepared publish_polled publish_into publish_found copied deliver
    signal_all select consider offered poll_cleanup poll_all collect_quiescent collect_retired
    new_map new_control is_retained any_contains advertised
first_reached = omega arith

acquire_next-due_example : Answers consumer 0 (acquire_next host consumer 0).1
acquire_next-due_example =
    acquire_next-due host consumer 0 history_kept first_numbered first_reached
