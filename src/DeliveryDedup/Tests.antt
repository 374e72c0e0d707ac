-- ===== src/DeliveryDedup/Tests.antt =====
-- Runs of the delivery cache.
use oh_my_github_runner.Prelude.{◌≡◌, refl, true, false, [], ◌∷◌, text_discrete}
use oh_my_github_runner.Prelude.Assoc.{lookup, insert, erase}
use oh_my_github_runner.DeliveryDedup.{DeliveryDedupCache, mark_seen, evict_expired, record_id}

abbrev one_slot : DeliveryDedupCache
one_slot = record { entries = ("d0", 900) ∷ []; max_entries = 1; ttl_ms = 600000 }

remembered : (mark_seen "d0" 100 one_slot).0 ≡ true
unfolding mark_seen evict_expired lookup text_discrete
remembered = refl

forgotten : (mark_seen "d0" 200 (mark_seen "d1" 100 one_slot).1).0 ≡ false
unfolding mark_seen evict_expired record_id lookup insert erase text_discrete
forgotten = refl
